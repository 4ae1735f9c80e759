-- ===== src/Triggers/Probes.antt =====
-- pkg/triggers/matcher.go: the HTTP probes of a trigger.
pub mod Rounds
use testkube.Base.{
  ℕ, String, Bool, true, false, ◌==◌, Option, none, some, List, [], ◌∷◌, Map, map, all, nat_eq, ltb,
  concat, Result, ok, err, if◌then◌else◌,
}
use testkube.Triggers.Trigger.{Probe, ProbeSpec}
use testkube.Triggers.Matcher.{MatchError, probe_timeout, failed}

-- The GET request of a probe.
pub record Request : Type 0 where
  pub scheme : String
  pub host : String
  pub path : String
  pub headers : Map String

-- What the HTTP client returns for a request: the status code, or none for an error.
abbrev pub Client : Type 0
Client = Request → Option ℕ

-- `show` prints a port in decimal.
module _ (show : ℕ → String) where
  unfoldable pub probe_host : Probe → String
  unfolding concat
  probe_host p = if nat_eq p.port 0 then p.host else concat (p.host ∷ ":" ∷ show p.port ∷ [])

  abbrev pub request_of : Probe → Request
  request_of p = record {
    scheme = p.scheme;
    host = probe_host p;
    path = p.path;
    headers = p.headers;
  }

  -- The goroutine of one probe.
  unfoldable pub probe_ok : Client → Probe → Bool
  unfolding probe_host
  probe_ok client p =
      if probe_host p == ""
      then false
      else elim (client (request_of p)) [ none ↦ false | some code ↦ ltb code 400 ]

  -- The goroutines send their results into one channel, so that their order is lost; the loop that
  -- reads it asks for a false one.
  unfoldable pub check_probes : Client → List Probe → Bool
  unfolding probe_ok
  check_probes client probes = all (probe_ok client) probes

abbrev pub or_text : String → String → String
or_text default s = if s == "" then default else s

-- The body of the loop that fills in what a probe leaves out.
unfoldable pub fill_probe : String → Probe → Probe
fill_probe host p = record p {
  scheme = or_text "http" p.scheme;
  host = or_text host p.host;
  path = or_text "/" p.path;
}

-- The loop writes into the probes of the trigger itself.
unfoldable pub fill_probes : String → List Probe → List Probe
unfolding fill_probe
fill_probes host probes = map (fill_probe host) probes

module _ (show : ℕ → String) {E : Type 0} where
  -- The rounds that begin before the context is done, each with what the client answers in it.
  unfoldable pub probe_loop : List Probe → List Client → Result (MatchError E) Bool
  unfolding check_probes
  probe_loop probes [] = err probe_timeout
  probe_loop probes (client ∷ rounds) =
      let later = probe_loop probes rounds in
      if check_probes show client probes then ok true else later

  -- `matchProbes`: the probes as they are left in the trigger, and the result. The address is what
  -- `addressGetter` returns, if the event has one.
  unfoldable pub match_probes :
      ProbeSpec → Option (Result E String) → List Client → ProbeSpec × Result (MatchError E) Bool
  unfolding fill_probes probe_loop
  match_probes spec (some (err e)) rounds = (spec, err (failed e))
  match_probes spec (some (ok host)) rounds =
      let probes = fill_probes host spec.probes in
      (record spec { probes = probes }, probe_loop probes rounds)
  match_probes spec none rounds =
      let probes = fill_probes "" spec.probes in
      (record spec { probes = probes }, probe_loop probes rounds)
