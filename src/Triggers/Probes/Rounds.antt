-- ===== src/Triggers/Probes/Rounds.antt =====
-- When the probes of a trigger match, and what is left of them in it (matchProbes in matcher.go).
use testkube.Base.{
  ℕ, ◌<◌, String, true, false, ◌==◌, ◌≡◌, ◌≢◌, ◌↔◌, refl, inl, inr, Option, none, some, List, [],
  ◌∷◌, Memᴰ, map, all, arith, eq_iff, Bool-cases, &&-eq-true, subst, sym, concat, nat_eq, ltb,
  Result, ok, err, if◌then◌else◌,
}
use testkube.Triggers.Trigger.{Probe, ProbeSpec}
use testkube.Triggers.Probes.{
  Client, probe_host, probe_ok, check_probes, or_text, fill_probe, fill_probes, probe_loop,
  match_probes,
}

or_text-again :
    (host other s : String) → (host == "") ≡ false → or_text other (or_text host s) ≡ or_text host s
or_text-again host other s h = ground (arith, eq_iff s "")

fill_probe-again :
    (host other : String) (p : Probe)
    → (host == "") ≡ false
    → fill_probe other (fill_probe host p) ≡ fill_probe host p
unfolding fill_probe
fill_probe-again host other p h = cc (
  or_text-again "http" "http" p.scheme refl,
  or_text-again host other p.host h,
  or_text-again "/" "/" p.path refl,
)

fill_probes-again :
    (host other : String) (ps : List Probe)
    → (host == "") ≡ false
    → fill_probes other (fill_probes host ps) ≡ fill_probes host ps
unfolding fill_probes
fill_probes-again host other [] h = refl
fill_probes-again host other (p ∷ ps) h =
    cc (fill_probe-again host other p h, fill_probes-again host other ps h)

-- The hosts that the probes name, with the address of the event for those that name none.
abbrev pub hosts_at : String → List Probe → List String
hosts_at host [] = []
hosts_at host (p ∷ ps) = (if p.host == "" then host else p.host) ∷ hosts_at host ps

fill_probes-hosts :
    (host : String) (ps : List Probe) → map (λ p. p.host) (fill_probes host ps) ≡ hosts_at host ps
unfolding fill_probes fill_probe
fill_probes-hosts host [] = refl
fill_probes-hosts host (p ∷ ps) = cc (fill_probes-hosts host ps)

answer_iff :
    (host : String) (answer : Option ℕ)
    → ((if host == "" then false else elim answer [ none ↦ false | some code ↦ ltb code 400 ])
        ≡ true)
      ↔ ((host ≢ "") × ((code : ℕ) × (code < 400) × (answer ≡ some code)))
answer_iff host none = (λ h. absurd (ground arith), λ (named, (code, low, e)). absurd (cc e))
answer_iff host (some code) = elim (Bool-cases (host == "")) [
  | inl blank ↦ (
    λ h. (let bad = rw blank at h in absurd (ground arith)),
    λ (named, rest). absurd (named ((eq_iff host "").0 blank)),
  )
  | inr given ↦ (
    λ h. (
      λ blank. (let bad = (eq_iff host "").1 blank in cc),
      (code, (let low = rw given at h in ground arith), refl),
    ),
    λ (named, (code', low, e)). rw given (let same : code ≡ code' = cc in ground arith),
  )
]

module _ (show : ℕ → String) where
  -- The host of the request, with the port if it is not 0.
  abbrev pub target : String → ℕ → String
  target host port = if nat_eq port 0 then host else concat (host ∷ ":" ∷ show port ∷ [])

  -- The client gets an answer below 400 for the probe: the scheme is http unless the probe names one,
  -- the host is the address of the event unless it names one, the path is `/` unless it names one, and
  -- neither host nor port may be left out.
  abbrev pub IsAnswered : String → Client → Probe → Type 0
  IsAnswered address client p =
      let host = target (if p.host == "" then address else p.host) p.port in
      (host ≢ "")
      × ((code : ℕ) × (code < 400)
          × (client (record {
            scheme = if p.scheme == "" then "http" else p.scheme;
            host = host;
            path = if p.path == "" then "/" else p.path;
            headers = p.headers;
          })
              ≡ some code))

  probe_ok_iff :
      (address : String) (client : Client) (p : Probe)
      → (probe_ok show client (fill_probe address p) ≡ true) ↔ IsAnswered address client p
  unfolding probe_ok probe_host fill_probe
  probe_ok_iff address client p =
      let host = if p.host == "" then address else p.host in
      answer_iff (target host p.port) (
        client (record {
          scheme = if p.scheme == "" then "http" else p.scheme;
          host = target host p.port;
          path = if p.path == "" then "/" else p.path;
          headers = p.headers;
        }))

  -- In a round that the client answers, it answers every probe.
  abbrev pub Answers : String → Client → List Probe → Type 0
  Answers address client probes = (p : Probe) → Memᴰ p probes → IsAnswered address client p

  all_probes_iff :
      (address : String) (client : Client) (probes : List Probe)
      → (check_probes show client (fill_probes address probes) ≡ true)
        ↔ Answers address client probes
  unfolding check_probes fill_probes
  all_probes_iff address client [] = (λ h p listed. elim listed [ ], λ h. refl)
  all_probes_iff address client (p ∷ ps) =
      let first = probe_ok_iff address client p in
      let rest = all_probes_iff address client ps in
      (
        λ h q listed.
            let (good, others) =
              &&-eq-true (probe_ok show client (fill_probe address p))
                (all (probe_ok show client) (map (fill_probe address) ps)) h in
            elim listed [
              | Memᴰ.head same ↦ subst (IsAnswered address client) (sym same) (first.0 good)
              | Memᴰ.tail later ↦ rest.0 others q later
            ],
        λ h. rw (first.1 (h p (Memᴰ.head refl))) (rest.1 (λ q later. h q (Memᴰ.tail later))),
      )

-- There is an address, and some round in which the client answers every probe.
abbrev pub Succeeds : (ℕ → String) → List Probe → List Client → Option String → Type 0
Succeeds show probes rounds none = ⊥
Succeeds show probes rounds (some host) =
    (client : Client) × Memᴰ client rounds × Answers show host client probes

module _ (show : ℕ → String) {E : Type 0} where
  -- Once an event with an address that is not empty has been probed, that address stands in the
  -- trigger's probes that named no host, and the others have the host that they named. For every later
  -- event the probes and the result are those of the first address, whatever the address of the later
  -- event is.
  pub match_probes-stale :
      (spec : ProbeSpec) (host other : String) (rounds later : List Client)
      → (host == "") ≡ false
      → let first = (match_probes show {E = E} spec (some (ok host)) rounds).0 in
        (map (λ p. p.host) first.probes ≡ hosts_at host spec.probes)
        × (match_probes show {E = E} first (some (ok other)) later
            ≡ match_probes show {E = E} first (some (ok host)) later)
  unfolding match_probes
  match_probes-stale spec host other rounds later h = (
    fill_probes-hosts host spec.probes,
    rw (fill_probes-again host other spec.probes h, fill_probes-again host host spec.probes h) refl,
  )

  probe_loop_iff :
      (address : String) (probes : List Probe) (rounds : List Client)
      → (probe_loop show {E = E} (fill_probes address probes) rounds ≡ ok true)
        ↔ Succeeds show probes rounds (some address)
  unfolding probe_loop
  probe_loop_iff address probes [] =
      (λ h. absurd (ground arith), λ (client, listed, h). elim listed [ ])
  probe_loop_iff address probes (client ∷ rounds) =
      let here = all_probes_iff show address client probes in
      let rest = probe_loop_iff address probes rounds in
      elim (Bool-cases (check_probes show client (fill_probes address probes))) [
        | inl good ↦ (λ h. (client, Memᴰ.head refl, here.0 good), λ h. rw good refl)
        | inr bad ↦ (
          λ h.
              let (client', listed, answered) = rest.0 (rw bad at h) in
              (client', Memᴰ.tail listed, answered),
          λ (client', listed, answered). elim listed [
            | Memᴰ.head same ↦
                let good = here.1 (subst (λ c. Answers show address c probes) same answered) in cc
            | Memᴰ.tail later ↦ rw bad (rest.1 (client', later, answered))
          ],
        )
      ]

  -- The host that the probes of an event are filled with; none if its address cannot be had.
  abbrev pub host_of : Option (Result E String) → Option String
  host_of none = some ""
  host_of (some (ok host)) = some host
  host_of (some (err e)) = none

  -- The wait for the probes of a trigger ends with a match exactly when the address can be had (it is
  -- empty for an event that has none) and, in a round that begins before the time-out, every probe gets
  -- an answer below 400. A request goes to the probe's scheme, host and path, for which `http`, the
  -- address and `/` stand in, with the probe's headers, and with its port after the host unless that is
  -- 0; a probe with an empty host and no port has no answer.
  pub match_probes-eq-true_iff :
      (spec : ProbeSpec) (address : Option (Result E String)) (rounds : List Client)
      → ((match_probes show spec address rounds).1 ≡ ok true)
        ↔ Succeeds show spec.probes rounds (host_of address)
  unfolding match_probes
  match_probes-eq-true_iff spec none rounds = probe_loop_iff "" spec.probes rounds
  match_probes-eq-true_iff spec (some (ok host)) rounds = probe_loop_iff host spec.probes rounds
  match_probes-eq-true_iff spec (some (err e)) rounds = (λ h. absurd (ground arith), absurd)
