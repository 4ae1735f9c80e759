-- ===== src/Model/StatusLists.antt =====
-- ParseExecutionStatusList (model_execution_status_extended.go) and
-- ParseTestSuiteExecutionStatusList (model_test_suite_status_extended.go), for a separator of one
-- character; every caller passes ",".
pub mod RoundTrip
use Prim.Native.Char.{Char}
use testkube.Base.{
  String, Bool, true, false, ◌==◌, ◌≡◌, refl, Option, none, some, List, [], ◌∷◌, map, arith, Result,
  ok, err, if◌then◌else◌, split, join, All, Lacks, split-join, ap,
}
use testkube.Model.Status.{ExecutionStatus, status_text}
use testkube.Model.SuiteStatus
use testkube.Model.SuiteStatus.{SuiteStatus, suite_status_text}

-- The value found in `statusMap`, whose keys are the listed statuses.
unfoldable pub find_status {ℓ} : {S : Type ℓ} → (S → String) → List S → String → Option S
find_status text [] value = none
find_status text (s ∷ ss) value = if text s == value then some s else find_status text ss value

abbrev pub execution_status_map : List ExecutionStatus
execution_status_map =
    ExecutionStatus.failed ∷ ExecutionStatus.passed ∷ ExecutionStatus.queued
    ∷ ExecutionStatus.running ∷ ExecutionStatus.aborted ∷ ExecutionStatus.timeout ∷ []

abbrev pub suite_status_map : List SuiteStatus
suite_status_map =
    SuiteStatus.failed ∷ SuiteStatus.passed ∷ SuiteStatus.queued ∷ SuiteStatus.running ∷ []

-- The loop over the values; an error carries the status that is not known.
unfoldable pub parse_values {ℓ} :
    {S : Type ℓ} → (S → String) → List S → List String → Result String (List S)
parse_values text known [] = ok []
parse_values text known (value ∷ values) =
    let rest = parse_values text known values in
    elim (find_status text known value) [
      | none ↦ err value
      | some s ↦ elim rest [ ok ss ↦ ok (s ∷ ss) | err e ↦ err e ]
    ]

-- An empty source gives the nil list.
unfoldable pub parse_list {ℓ} :
    {S : Type ℓ} → (S → String) → List S → Char → String → Result String (List S)
parse_list text known sep source =
    if source == "" then ok [] else parse_values text known (split sep source)

unfoldable pub parse_execution_status_list : Char → String → Result String (List ExecutionStatus)
parse_execution_status_list = parse_list status_text execution_status_map

unfoldable pub parse_suite_status_list : Char → String → Result String (List SuiteStatus)
parse_suite_status_list = parse_list suite_status_text suite_status_map
