-- ===== src/Model/StatusLists/RoundTrip.antt =====
-- Reading a list of statuses against printing it.
use Prim.Native.Char.{Char}
use testkube.Base.{
  String, Bool, true, false, ◌==◌, ◌≡◌, refl, ◌↔◌, some, inl, inr, Bool-cases, List, [], ◌∷◌, map,
  arith, ok, split, join, All, All-map, Lacks, split-join, join-split, ap, ◌∙◌, sym, ◌≢◌, eq_iff,
}
use testkube.Model.Status.{ExecutionStatus, status_text}
use testkube.Model.SuiteStatus.{SuiteStatus, suite_status_text}
use testkube.Model.StatusLists.{
  find_status, parse_values, parse_list, parse_execution_status_list, parse_suite_status_list,
  execution_status_map, suite_status_map,
}

abbrev pub comma : Char
comma = ","

-- The test-suite statuses that `statusMap` has.
abbrev pub IsListed : SuiteStatus → Type 0
IsListed s = find_status suite_status_text suite_status_map (suite_status_text s) ≡ some s

abbrev pub execution_known : ExecutionStatus → Bool
execution_known ExecutionStatus.skipped = false
execution_known ExecutionStatus.unset = false
execution_known _ = true

abbrev pub listed : SuiteStatus → Bool
listed SuiteStatus.failed = true
listed SuiteStatus.passed = true
listed SuiteStatus.queued = true
listed SuiteStatus.running = true
listed _ = false

module _ {ℓ} {S : Type ℓ} (text : S → String) (known : List S) where
  parse_values-map :
      (ss : List S)
      → All (λ s. find_status text known (text s) ≡ some s) ss
      → parse_values text known (map text ss) ≡ ok ss
  unfolding parse_values
  parse_values-map [] h = refl
  parse_values-map (s ∷ ss) h = rw (h.0, parse_values) (rw (parse_values-map ss h.1))

  find_status_sound :
      (ss : List S) (value : String) (s : S) → find_status text ss value ≡ some s → text s ≡ value
  unfolding find_status
  find_status_sound [] value s h = cc
  find_status_sound (t ∷ ss) value s h = elim (Bool-cases (text t == value)) [
    | inl same ↦ ground (arith, eq_iff (text t) value)
    | inr other ↦ find_status_sound ss value s (ground arith)
  ]

  parse_values_sound :
      (values : List String) (ss : List S)
      → parse_values text known values ≡ ok ss
      → map text ss ≡ values
  unfolding parse_values
  parse_values_sound [] ss h = ground arith
  parse_values_sound (v ∷ vs) [] h = ground arith
  parse_values_sound (v ∷ vs) (s ∷ ss) h =
      ground (arith, find_status_sound known v s, parse_values_sound vs ss)

module _ {ℓ} {S : Type ℓ} (text : S → String) (known : List S) (sep : Char)
    (plain : (s : S) → Lacks sep (text s)) where
  abbrev IsKnown : S → Type ℓ
  IsKnown s = find_status text known (text s) ≡ some s

  Lacks-map : (ss : List S) → All (Lacks sep) (map text ss)
  Lacks-map [] = tt
  Lacks-map (s ∷ ss) = (plain s, Lacks-map ss)

  split-join-map :
      (s : S) (ss : List S) → split sep (join sep (map text (s ∷ ss))) ≡ map text (s ∷ ss)
  split-join-map s ss = split-join sep (text s) (map text ss) (Lacks-map (s ∷ ss))

  parse_values-IsKnown :
      (values : List String) (ss : List S) → parse_values text known values ≡ ok ss → All IsKnown ss
  unfolding parse_values
  parse_values-IsKnown values [] h = tt
  parse_values-IsKnown [] (s ∷ ss) h = absurd (ground arith)
  parse_values-IsKnown (v ∷ vs) (s ∷ ss) h =
      let found : find_status text known v ≡ some s = ground arith in
      let rest : parse_values text known vs ≡ ok ss = ground arith in
      (rw (find_status_sound text known known v s found) found, parse_values-IsKnown vs ss rest)

  head_blank : (s : S) (ss : List S) → "" ≡ join sep (map text (s ∷ ss)) → text s ≡ ""
  unfolding split
  head_blank s ss e =
      let parts : map text (s ∷ ss) ≡ "" ∷ [] =
        sym (split-join-map s ss) ∙ ap (split sep) (sym e) in
      cc parts

  -- A text reads as a list exactly when it is the printed list and every status of it is known.
  parse_list_iff :
      ((s : S) → IsKnown s → text s ≢ "")
      → (source : String) (s : S) (ss : List S)
      → (parse_list text known sep source ≡ ok (s ∷ ss))
        ↔ (All IsKnown (s ∷ ss) × (source ≡ join sep (map text (s ∷ ss))))
  unfolding parse_list
  parse_list_iff named source s ss = elim (Bool-cases (source == "")) [
    | inl blank ↦ (
      λ h. absurd (ground arith),
      λ h. absurd (named s h.0.0 (head_blank s ss (sym ((eq_iff source "").0 blank) ∙ h.1))),
    )
    | inr filled ↦ (
      λ h.
          let got : parse_values text known (split sep source) ≡ ok (s ∷ ss) = ground arith in
          (
            parse_values-IsKnown _ _ got,
            sym (ap (join sep) (parse_values_sound text known _ _ got) ∙ join-split sep source),
          ),
      λ h. rw filled (rw (h.1, split-join-map s ss) (parse_values-map text known (s ∷ ss) h.0)),
    )
  ]

status_text-Lacks : (s : ExecutionStatus) → Lacks comma (status_text s)
status_text-Lacks ExecutionStatus.queued = ground arith
status_text-Lacks _ = ground arith

suite_status_text-Lacks : (s : SuiteStatus) → Lacks comma (suite_status_text s)
suite_status_text-Lacks SuiteStatus.queued = ground arith
suite_status_text-Lacks _ = ground arith

abbrev IsKnownStatus : ExecutionStatus → Type 0
IsKnownStatus s = find_status status_text execution_status_map (status_text s) ≡ some s

status_text-ne : (s : ExecutionStatus) → IsKnownStatus s → status_text s ≢ ""
unfolding find_status
status_text-ne ExecutionStatus.queued h = λ e. ground (arith, eq_iff "queued" "")
status_text-ne s h = λ e. ground (arith, eq_iff (status_text s) "")

suite_status_text-ne : (s : SuiteStatus) → IsListed s → suite_status_text s ≢ ""
unfolding find_status
suite_status_text-ne SuiteStatus.queued h = λ e. ground (arith, eq_iff "queued" "")
suite_status_text-ne s h = λ e. ground (arith, eq_iff (suite_status_text s) "")

execution_known_iff : (s : ExecutionStatus) → IsKnownStatus s ↔ (execution_known s ≡ true)
unfolding find_status
execution_known_iff ExecutionStatus.queued = ground arith
execution_known_iff s = ground arith

listed_iff : (s : SuiteStatus) → IsListed s ↔ (listed s ≡ true)
unfolding find_status
listed_iff SuiteStatus.queued = ground arith
listed_iff s = ground arith

-- A text separated by commas reads as a non-empty list of execution statuses exactly when it is the
-- list printed with commas, and no status of it is "skipped" or the empty status.
pub parse_execution_status_list_iff :
    (source : String) (s : ExecutionStatus) (ss : List ExecutionStatus)
    → (parse_execution_status_list comma source ≡ ok (s ∷ ss)) ↔ (
        All (λ t. execution_known t ≡ true) (s ∷ ss)
        × (source ≡ join comma (map status_text (s ∷ ss))))
unfolding parse_execution_status_list
parse_execution_status_list_iff source s ss =
    let (to, from) =
      parse_list_iff status_text execution_status_map comma status_text-Lacks status_text-ne source
        s ss in
    (
      λ h. (All-map _ _ (λ t. (execution_known_iff t).0) (s ∷ ss) (to h).0, (to h).1),
      λ h. from (All-map _ _ (λ t. (execution_known_iff t).1) (s ∷ ss) h.0, h.1),
    )

-- A text separated by commas reads as a non-empty list of test-suite statuses exactly when it is the
-- list printed with commas, and every status of it is failed, passed, queued or running: the
-- statuses aborting, aborted and timeout are never read.
pub parse_suite_status_list_iff :
    (source : String) (s : SuiteStatus) (ss : List SuiteStatus)
    → (parse_suite_status_list comma source ≡ ok (s ∷ ss)) ↔ (
        All (λ t. listed t ≡ true) (s ∷ ss)
        × (source ≡ join comma (map suite_status_text (s ∷ ss))))
unfolding parse_suite_status_list
parse_suite_status_list_iff source s ss =
    let (to, from) =
      parse_list_iff suite_status_text suite_status_map comma suite_status_text-Lacks
        suite_status_text-ne source s ss in
    (
      λ h. (All-map _ _ (λ t. (listed_iff t).0) (s ∷ ss) (to h).0, (to h).1),
      λ h. from (All-map _ _ (λ t. (listed_iff t).1) (s ∷ ss) h.0, h.1),
    )
