-- ===== src/Triggers/Lease.antt =====
-- pkg/triggers/lease.go and lease_backend.go: one instance of a cluster holds the lease.
pub mod Exclusion
use testkube.Base.{
  ℕ, ◌+◌, String, Bool, true, false, ◌&&◌, ◌==◌, Option, none, some, [], ◌∷◌, ltb, concat, Result,
  ok, err, if◌then◌else◌,
}

pub record Lease : Type 0 where
  pub identifier : String
  pub cluster_id : String
  pub acquired_at : ℕ
  pub renewed_at : ℕ

unfoldable pub new_lease : String → String → ℕ → Lease
new_lease id cluster_id now = record {
  identifier = id;
  cluster_id = cluster_id;
  acquired_at = now;
  renewed_at = now;
}

unfoldable pub new_lease_mongo_id : String → String
unfolding concat
new_lease_mongo_id cluster_id = concat ("lease" ∷ "-" ∷ cluster_id ∷ [])

-- `lease.RenewedAt.Before(time.Now().Add(-defaultMaxLeaseDuration))`
unfoldable pub is_lease_expired : ℕ → ℕ → Lease → Bool
is_lease_expired max_duration now l = ltb (l.renewed_at + max_duration) now

abbrev pub is_my_lease : String → String → Lease → Bool
is_my_lease id cluster_id l = (l.identifier == id) && (l.cluster_id == cluster_id)

-- `leaseStatus` of a lease that is not nil: acquired, and renewable.
unfoldable pub lease_status : ℕ → ℕ → String → String → Lease → Bool × Bool
unfolding is_lease_expired
lease_status max_duration now id cluster_id l =
    if is_lease_expired max_duration now l
    then (false, true)
    else if is_my_lease id cluster_id l
    then (true, false)
    else (false, false)

-- What finding a document gives.
pub data Find : Type 0 where
  found : Lease → Find
  no_document find_failed : Find

-- The MongoDB collection, on a store `S`: `FindOne`, `InsertOne` and `FindOneAndUpdate` with the
-- document after the update. `none` is an error.
pub record Collection (S : Type 0) : Type 0 where
  pub find : String → S → Find
  pub insert : String → Lease → S → Option S
  pub update : String → Lease → S → Option (S × Lease)

module _ {S : Type 0} (coll : Collection S) (max_duration : ℕ) where
  -- The lease that `findOrInsertCurrentLease` returns, and the store after it.
  unfoldable pub find_or_insert_current_lease : String → String → ℕ → S → Option (S × Lease)
  unfolding new_lease new_lease_mongo_id
  find_or_insert_current_lease id cluster_id now s =
      let k = new_lease_mongo_id cluster_id in
      let l = new_lease id cluster_id now in
      elim (coll.find k s) [
        | found current ↦ some (s, current)
        | no_document ↦ elim (coll.insert k l s) [ none ↦ none | some s' ↦ some (s', l) ]
        | find_failed ↦ none
      ]

  -- `TryAcquire` up to the update: an answer, or the time of acquisition to write.
  unfoldable pub look : String → String → ℕ → S → Option (S × Result Bool ℕ)
  unfolding find_or_insert_current_lease lease_status
  look id cluster_id now s = elim (find_or_insert_current_lease id cluster_id now s) [
    | none ↦ none
    | some (s', l) ↦
        let r = lease_status max_duration now id cluster_id l in
        if r.0
        then some (s', err true)
        else if r.1
        then some (s', ok (if l.identifier == id then l.acquired_at else now))
        else some (s', err false)
  ]

  -- `tryUpdateLease` and what follows: the update does not ask which lease stands there by now.
  unfoldable pub take_over : String → String → ℕ → ℕ → S → Option (S × Bool)
  unfolding lease_status new_lease_mongo_id
  take_over id cluster_id now acquired_at s =
      let l : Lease = record {
        identifier = id;
        cluster_id = cluster_id;
        acquired_at = acquired_at;
        renewed_at = now;
      } in
      elim (coll.update (new_lease_mongo_id cluster_id) l s) [
        | none ↦ none
        | some (s', updated) ↦ some (s', (lease_status max_duration now id cluster_id updated).0)
      ]

  -- `TryAcquire`, the clock standing still in it; `none` is an error.
  unfoldable pub try_acquire : String → String → ℕ → S → Option (S × Bool)
  unfolding look take_over
  try_acquire id cluster_id now s = elim (look id cluster_id now s) [
    | none ↦ none
    | some (s', r) ↦ elim r [
      | err answer ↦ some (s', answer)
      | ok acquired_at ↦ take_over id cluster_id now acquired_at s'
    ]
  ]
