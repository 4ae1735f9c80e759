-- ===== src/Scheduler/Steps/Responses.antt =====
-- Which execution a step gets from the worker pool (executeTestStep in testsuite_scheduler.go).
use testkube.Base.{
  String, ◌==◌, ◌≡◌, refl, ap, ◌∙◌, Option, none, some, List, [], ◌∷◌, Map, lookup, insert,
  lookup-insert, or_else, arith, if◌then◌else◌,
}
use testkube.Model.Execution.{Execution}
use testkube.Model.Suite.{SuiteStepResult}
use testkube.Scheduler.Steps.{response_map, store_execution, store_response}

-- The last response with the id.
unfoldable pub last_with : String → List Execution → Option Execution
last_with id [] = none
last_with id (e ∷ es) = or_else (last_with id es) (if e.id == id then some e else none)

response_map_lem :
    (id : String) (es : List Execution) (m : Map Execution)
    → lookup id (response_map es m) ≡ or_else (last_with id es) (lookup id m)
unfolding response_map last_with
response_map_lem id [] m = refl
response_map_lem id (e ∷ es) m =
    ground (arith, response_map_lem id es (insert e.id e m), lookup-insert e.id id e m)

or_else-none : (o : Option Execution) → or_else o none ≡ o
or_else-none none = refl
or_else-none (some e) = refl

-- The execution of a step after the responses are stored: the last response that has its id, or the one
-- it had.
abbrev pub stored : List Execution → Option Execution → Option Execution
stored es none = none
stored es (some e) = or_else (last_with e.id es) (some e)

store_execution_lem :
    (es : List Execution) (o : Option Execution)
    → store_execution (response_map es []) o ≡ stored es o
unfolding lookup
store_execution_lem es none = refl
store_execution_lem es (some e) =
    ap (λ o. or_else o (some e)) (response_map_lem e.id es [] ∙ or_else-none (last_with e.id es))

-- Whatever the order of the responses, a step with an execution gets the last response that has the id
-- of its execution, and stays as it is if there is none; a step without an execution stays as it is.
pub store_response_lem :
    (es : List Execution) (r : SuiteStepResult)
    → store_response (response_map es []) r ≡ record r { execution = stored es r.execution }
unfolding store_response
store_response_lem es r = ap (λ o. record r { execution = o }) (store_execution_lem es r.execution)
