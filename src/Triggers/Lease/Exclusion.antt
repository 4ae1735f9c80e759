-- ===== src/Triggers/Lease/Exclusion.antt =====
-- Who holds the lease after instances ask for it, one after the other and at the same time.
use testkube.Base.{
  ℕ, String, true, false, ◌==◌, ◌≡◌, ◌≢◌, ◌⊎◌, refl, none, some, arith, eq_iff, ok, if◌then◌else◌,
  Bool-cases, Option-cases, inl, inr,
}
use testkube.Triggers.Lease.{
  Lease, Find, found, no_document, find_failed, Collection, new_lease, new_lease_mongo_id,
  lease_status, is_lease_expired, is_my_lease, find_or_insert_current_lease, look, take_over,
  try_acquire,
}

-- The documented behaviour of the collection: what was inserted or written is found, an update returns
-- what it wrote, and it fails only where there is no document.
pub record Laws {S : Type 0} (coll : Collection S) : Type 0 where
  pub insert_found :
      (k : String) (l : Lease) (s s' : S) → coll.insert k l s ≡ some s' → coll.find k s' ≡ found l
  pub update_found :
      (k : String) (l current : Lease) (s : S)
      → coll.find k s ≡ found current
      → (s' : S) × (coll.update k l s ≡ some (s', l)) × (coll.find k s' ≡ found l)

Find-cases : (f : Find) → ((l : Lease) × (f ≡ found l)) ⊎ ((f ≡ no_document) ⊎ (f ≡ find_failed))
Find-cases (found l) = inl (l, refl)
Find-cases no_document = inr (inl refl)
Find-cases find_failed = inr (inr refl)

module _ {S : Type 0} (coll : Collection S) (laws : Laws coll) (max : ℕ) (cluster : String) where
  abbrev key : String
  key = new_lease_mongo_id cluster

  -- An instance holds the lease: the document names it and is not expired.
  abbrev pub Holds : String → ℕ → S → Type 0
  Holds id now s =
      (l : Lease) × (coll.find (new_lease_mongo_id cluster) s ≡ found l)
      × (lease_status max now id cluster l ≡ (true, false))

  written_status :
      (id : String) (now acquired_at : ℕ) (l : Lease)
      → l.identifier ≡ id
      → l.cluster_id ≡ cluster
      → l.renewed_at ≡ now
      → lease_status max now id cluster l ≡ (true, false)
  unfolding lease_status
  written_status id now acquired_at l i c r =
      ground (arith, i, c, r, eq_iff l.identifier id, eq_iff l.cluster_id cluster)

  -- What is written for an instance, now.
  abbrev pub written : String → ℕ → ℕ → Lease
  written id now acquired_at = record {
    identifier = id;
    cluster_id = cluster;
    acquired_at = acquired_at;
    renewed_at = now;
  }

  -- What `TryAcquire` answers, by the lease that it finds.
  module _ (id : String) (now : ℕ) (s : S) where
    acquired_at : Lease → ℕ
    acquired_at l = if l.identifier == id then l.acquired_at else now

    on_mine :
        (l : Lease)
        → coll.find key s ≡ found l
        → lease_status max now id cluster l ≡ (true, false)
        → try_acquire coll max id cluster now s ≡ some (s, true)
    unfolding try_acquire look find_or_insert_current_lease
    on_mine l here status = cc (here, status)

    on_other :
        (l : Lease)
        → coll.find key s ≡ found l
        → lease_status max now id cluster l ≡ (false, false)
        → try_acquire coll max id cluster now s ≡ some (s, false)
    unfolding try_acquire look find_or_insert_current_lease
    on_other l here status = cc (here, status)

    look_expired :
        (l : Lease)
        → coll.find key s ≡ found l
        → lease_status max now id cluster l ≡ (false, true)
        → look coll max id cluster now s ≡ some (s, ok (acquired_at l))
    unfolding look find_or_insert_current_lease acquired_at
    look_expired l here status = cc (here, status)

    take_over_found :
        (current : Lease) (t : ℕ)
        → coll.find key s ≡ found current
        → (s₁ : S) × (take_over coll max id cluster now t s ≡ some (s₁, true))
          × (coll.find key s₁ ≡ found (written id now t))
    unfolding take_over
    take_over_found current t here =
        let (s₁, done, there) = laws.update_found key (written id now t) current s here in
        (s₁, cc (done, written_status id now t (written id now t) refl refl refl), there)

    on_expired :
        (l : Lease)
        → coll.find key s ≡ found l
        → lease_status max now id cluster l ≡ (false, true)
        → try_acquire coll max id cluster now s
          ≡ take_over coll max id cluster now (acquired_at l) s
    unfolding try_acquire
    on_expired l here status = cc (look_expired l here status)

    on_inserted :
        (s₁ : S)
        → coll.find key s ≡ no_document
        → coll.insert key (new_lease id cluster now) s ≡ some s₁
        → try_acquire coll max id cluster now s ≡ some (s₁, true)
    unfolding try_acquire look find_or_insert_current_lease new_lease
    on_inserted s₁ absent inserted =
        cc (absent, inserted, written_status id now now (written id now now) refl refl refl)

    on_error : coll.find key s ≡ find_failed → try_acquire coll max id cluster now s ≡ none
    unfolding try_acquire look find_or_insert_current_lease
    on_error failed = cc failed

    on_insert_error :
        coll.find key s ≡ no_document
        → coll.insert key (new_lease id cluster now) s ≡ none
        → try_acquire coll max id cluster now s ≡ none
    unfolding try_acquire look find_or_insert_current_lease
    on_insert_error absent failed = cc (absent, failed)

  status-cases :
      (id : String) (now : ℕ) (l : Lease)
      → (lease_status max now id cluster l ≡ (true, false))
        ⊎ ((lease_status max now id cluster l ≡ (false, true))
            ⊎ (lease_status max now id cluster l ≡ (false, false)))
  unfolding lease_status
  status-cases id now l = elim (Bool-cases (is_lease_expired max now l)) [
    | inl old ↦ inr (inl (rw old refl))
    | inr new ↦ elim (Bool-cases (is_my_lease id cluster l)) [
      | inl mine ↦ inl (rw (new, mine) refl)
      | inr other ↦ inr (inr (rw (new, other) refl))
    ]
  ]

  new_status :
      (id : String) (now : ℕ)
      → lease_status max now id cluster (new_lease id cluster now) ≡ (true, false)
  unfolding new_lease
  new_status id now = written_status id now now (written id now now) refl refl refl

  other_status :
      (id other : String) (now : ℕ) (l : Lease)
      → id ≢ other
      → lease_status max now id cluster l ≡ (true, false)
      → lease_status max now other cluster l ≡ (false, false)
  unfolding lease_status
  other_status id other now l differ mine = ground (
    arith,
    differ,
    eq_iff l.identifier id,
    eq_iff l.identifier other,
    eq_iff l.cluster_id cluster,
  )

  expired_status :
      (id : String) (now : ℕ) (l : Lease)
      → is_lease_expired max now l ≡ true
      → lease_status max now id cluster l ≡ (false, true)
  unfolding lease_status
  expired_status id now l old = rw old refl

  -- An instance that is told that it has the lease holds it then.
  pub try_acquire-Holds :
      (id : String) (now : ℕ) (s s' : S)
      → try_acquire coll max id cluster now s ≡ some (s', true)
      → Holds id now s'
  try_acquire-Holds id now s s' h = elim (Find-cases (coll.find key s)) [
    | inl (l, here) ↦ elim (status-cases id now l) [
      | inl mine ↦
          let same : s ≡ s' = cc (on_mine id now s l here mine, h) in (l, cc (same, here), mine)
      | inr (inl old) ↦
          let (s₁, done, there) = take_over_found id now s l (acquired_at id now s l) here in
          let same : s₁ ≡ s' = cc (on_expired id now s l here old, done, h) in
          (
            written id now (acquired_at id now s l),
            cc (same, there),
            written_status id now now (written id now (acquired_at id now s l)) refl refl refl,
          )
      | inr (inr other) ↦ absurd (ground (arith, on_other id now s l here other))
    ]
    | inr (inl absent) ↦ elim (Option-cases (coll.insert key (new_lease id cluster now) s)) [
      | inl failed ↦ absurd (ground (arith, on_insert_error id now s absent failed))
      | inr (s₁, inserted) ↦
          let same : s₁ ≡ s' = cc (on_inserted id now s s₁ absent inserted, h) in
          let there = laws.insert_found key (new_lease id cluster now) s s₁ inserted in
          (new_lease id cluster now, cc (same, there), new_status id now)
    ]
    | inr (inr failed) ↦ absurd (ground (arith, on_error id now s failed))
  ]

  -- While an instance holds the lease, asking again tells it so, any other instance is refused, and
  -- neither changes the store: the lease is not renewed before it has expired.
  pub Holds-try_acquire :
      (id other : String) (now : ℕ) (s : S)
      → id ≢ other
      → Holds id now s
      → (try_acquire coll max id cluster now s ≡ some (s, true))
        × (try_acquire coll max other cluster now s ≡ some (s, false))
  Holds-try_acquire id other now s differ (l, here, mine) = (
    on_mine id now s l here mine,
    on_other other now s l here (other_status id other now l differ mine),
  )

  -- When the lease has expired and two instances look at it before either of them writes, both are told
  -- that they have it.
  pub take_over-race :
      (id other : String) (now : ℕ) (s : S) (l : Lease)
      → coll.find (new_lease_mongo_id cluster) s ≡ found l
      → is_lease_expired max now l ≡ true
      → (t : ℕ) × (u : ℕ) × (s₁ : S) × (s₂ : S) × (look coll max id cluster now s ≡ some (s, ok t))
        × (look coll max other cluster now s ≡ some (s, ok u))
        × (take_over coll max id cluster now t s ≡ some (s₁, true))
        × (take_over coll max other cluster now u s₁ ≡ some (s₂, true))
  take_over-race id other now s l here old =
      let t = acquired_at id now s l in
      let u = acquired_at other now s l in
      let (s₁, first, there) = take_over_found id now s l t here in
      let (s₂, second, _) = take_over_found other now s₁ (written id now t) u there in
      (
        t,
        u,
        s₁,
        s₂,
        look_expired id now s l here (expired_status id now l old),
        look_expired other now s l here (expired_status other now l old),
        first,
        second,
      )
