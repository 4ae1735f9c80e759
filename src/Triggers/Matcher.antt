-- ===== src/Triggers/Matcher.antt =====
-- pkg/triggers/matcher.go: which triggers an event runs.
pub mod Conditions
use testkube.Base.{
  ℕ, String, Bool, true, false, ◌&&◌, ◌||◌, not, ◌==◌, Option, none, some, List, [], ◌∷◌, Map,
  Result, ok, err, is_empty, any, insert, lookup, ltb, nat_eq, concat, if◌then◌else◌, ◌>>=◌,
}
use testkube.Triggers.Trigger.{Selector, Condition, ConditionSpec, WatcherEvent}

-- `regexp.Compile` and the label selectors of apimachinery. `none` is an error.
pub record Selectors (L : Type 0) : Type 0 where
  pub compile : String → Option (String → Bool)
  pub as_selector : L → Option (Map String → Bool)
  pub valid : Map String → Bool

unfoldable pub match_event_or_cause : String → WatcherEvent → Bool
match_event_or_cause target e = (target == e.event_type) || any (λ c. target == c) e.causes

-- `isSameNamespace || isSameTestTriggerNamespace`
abbrev pub same_namespace : String → String → String → Bool
same_namespace selector namespace event =
    (selector == event) || ((selector == "") && (namespace == event))

module _ {L : Type 0} (lib : Selectors L) where
  unfoldable pub match_labels : Option L → Map String → Bool
  match_labels none labels = false
  match_labels (some l) labels = if is_empty labels then false else elim (lib.as_selector l) [
    | none ↦ false
    | some matches ↦ if lib.valid labels then matches labels else false
  ]

  unfoldable pub match_selector : Selector L → String → WatcherEvent → Bool
  unfolding match_labels
  match_selector s namespace e =
      if not (s.name == "")
      then (s.name == e.name) && same_namespace s.namespace namespace e.namespace
      else if not (s.name_regex == "")
      then elim (lib.compile s.name_regex) [
        | none ↦ false
        | some matches ↦ matches e.name && same_namespace s.namespace namespace e.namespace
      ]
      else match_labels s.label_selector e.labels

-- `conditionMap`: of several conditions of a type the last stays.
unfoldable pub condition_map : List Condition → Map Condition → Map Condition
unfolding insert
condition_map [] m = m
condition_map (c ∷ cs) m = condition_map cs (insert c.type c m)

-- Both status pointers are there and point to the same text.
abbrev pub same_status : Option String → Option String → Bool
same_status (some a) (some b) = a == b
same_status none b = false
same_status (some a) none = false

-- The body of the loop over the trigger's conditions, on the resource's condition of that type.
abbrev pub condition_holds : Condition → Option Condition → Bool
condition_holds c none = false
condition_holds c (some r) =
    same_status r.status c.status
    && ((c.reason == "") || (c.reason == r.reason))
    && (nat_eq c.ttl 0 || not (ltb c.ttl r.ttl))

unfoldable pub conditions_hold : List Condition → Map Condition → Bool
unfolding lookup
conditions_hold [] m = true
conditions_hold (c ∷ cs) m =
    let rest = conditions_hold cs m in if condition_holds c (lookup c.type m) then rest else false

pub data MatchError (E : Type 0) : Type 0 where
  condition_timeout probe_timeout : MatchError E
  failed : E → MatchError E  -- the error of a getter or of the executor

-- The loop of `matchConditions`. The list holds what `conditionsGetter` returns in each of the rounds
-- that begin before the context is done; after them the loop takes the case of `timeoutCtx.Done()`.
unfoldable pub match_conditions :
    {E : Type 0} → ConditionSpec → List (Result E (List Condition)) → Result (MatchError E) Bool
unfolding conditions_hold condition_map
match_conditions spec [] = err condition_timeout
match_conditions spec (err e ∷ rounds) = err (failed e)
match_conditions spec (ok conditions ∷ rounds) =
    let later = match_conditions spec rounds in
    if conditions_hold spec.conditions (condition_map conditions []) then ok true else later
