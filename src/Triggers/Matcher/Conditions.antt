-- ===== src/Triggers/Matcher/Conditions.antt =====
-- When the conditions of a trigger match (matchConditions in matcher.go).
use testkube.Base.{
  String, true, false, ◌==◌, ◌≡◌, refl, ap, ◌∙◌, ◌↔◌, Option, none, some, List, [], ◌∷◌, ◌++◌, Map,
  All, lookup, insert, lookup-insert, or_else, arith, if◌then◌else◌, Bool-cases, inl, inr, Result,
  ok, err,
}
use testkube.Triggers.Trigger.{Condition, ConditionSpec}
use testkube.Triggers.Matcher.{condition_map, condition_holds, conditions_hold, match_conditions}

-- The last condition of a type.
unfoldable pub last_of : String → List Condition → Option Condition
last_of type [] = none
last_of type (c ∷ cs) = or_else (last_of type cs) (if c.type == type then some c else none)

condition_map_lem :
    (type : String) (cs : List Condition) (m : Map Condition)
    → lookup type (condition_map cs m) ≡ or_else (last_of type cs) (lookup type m)
unfolding condition_map last_of
condition_map_lem type [] m = refl
condition_map_lem type (c ∷ cs) m =
    ground (arith, condition_map_lem type cs (insert c.type c m), lookup-insert c.type type c m)

-- Each condition of the trigger holds of the last condition of its type that the resource has.
abbrev pub Matching : ConditionSpec → List Condition → Type 0
Matching spec conditions =
    All (λ c. condition_holds c (last_of c.type conditions) ≡ true) spec.conditions

conditions_hold_lem :
    (cs conditions : List Condition)
    → (conditions_hold cs (condition_map conditions []) ≡ true)
      ↔ All (λ c. condition_holds c (last_of c.type conditions) ≡ true) cs
unfolding conditions_hold lookup
conditions_hold_lem [] conditions = (λ _. tt, λ _. refl)
conditions_hold_lem (c ∷ cs) conditions =
    let e = condition_map_lem c.type conditions [] in
    let same : lookup c.type (condition_map conditions []) ≡ last_of c.type conditions =
      e ∙ ground arith in
    rw same (
      λ h. elim (Bool-cases (condition_holds c (last_of c.type conditions))) [
        | inl holds ↦ (holds, (conditions_hold_lem cs conditions).0 (rw holds at h))
        | inr fails ↦ absurd (ground arith)
      ],
      λ h. rw h.0 ((conditions_hold_lem cs conditions).1 h.1),
    )

module _ (spec : ConditionSpec) where
  round_holds :
      (conditions : List Condition)
      → (conditions_hold spec.conditions (condition_map conditions []) ≡ true)
        ↔ Matching spec conditions
  round_holds conditions = conditions_hold_lem spec.conditions conditions

module _ {E : Type 0} (spec : ConditionSpec) where
  -- The round fetches conditions, and some condition of the trigger fails.
  abbrev pub Waits : Result E (List Condition) → Type 0
  Waits r = (conditions : List Condition) × (r ≡ ok conditions) × ¬ Matching spec conditions

  -- Some round fetches conditions that match, and those before it wait.
  abbrev pub MatchesIn : List (Result E (List Condition)) → Type 0
  MatchesIn rounds =
      (pre : List (Result E (List Condition))) × (conditions : List Condition) × (post : List
        (Result E (List Condition)))
      × (rounds ≡ pre ++ ok conditions ∷ post)
      × All Waits pre
      × Matching spec conditions

  reach :
      (pre : List (Result E (List Condition))) (conditions : List Condition)
      (post : List (Result E (List Condition)))
      → All Waits pre
      → Matching spec conditions
      → match_conditions spec (pre ++ ok conditions ∷ post) ≡ ok true
  unfolding match_conditions
  reach [] conditions post w m = rw ((round_holds spec conditions).1 m) refl
  reach (r ∷ pre) conditions post ((cs, e, not_yet), w) m =
      let no : conditions_hold spec.conditions (condition_map cs []) ≡ false =
        elim (Bool-cases (conditions_hold spec.conditions (condition_map cs []))) [
          | inl holds ↦ absurd (not_yet ((round_holds spec cs).0 holds))
          | inr fails ↦ fails
        ] in
      rw (e, no) (reach pre conditions post w m)

  back :
      (rounds : List (Result E (List Condition)))
      → MatchesIn rounds
      → match_conditions spec rounds ≡ ok true
  back rounds (pre, conditions, post, e, w, m) = rw e (reach pre conditions post w m)

  waits_first :
      (cs : List Condition) (rounds : List (Result E (List Condition)))
      → conditions_hold spec.conditions (condition_map cs []) ≡ false
      → MatchesIn rounds
      → MatchesIn (ok cs ∷ rounds)
  waits_first cs rounds fails (pre, conditions, post, e, w, m) =
      let wait : Waits (ok cs) =
        (cs, refl, λ holds. absurd (ground (arith, fails, (round_holds spec cs).1 holds))) in
      (ok cs ∷ pre, conditions, post, ap (◌∷◌ (ok cs)) e, (wait, w), m)

  forth :
      (rounds : List (Result E (List Condition)))
      → match_conditions spec rounds ≡ ok true
      → MatchesIn rounds
  unfolding match_conditions
  forth [] h = absurd (ground arith)
  forth (err e ∷ rounds) h = absurd (ground arith)
  forth (ok cs ∷ rounds) h =
      elim (Bool-cases (conditions_hold spec.conditions (condition_map cs []))) [
        | inl holds ↦ ([], cs, rounds, refl, tt, (round_holds spec cs).0 holds)
        | inr fails ↦ waits_first cs rounds fails (forth rounds (rw fails at h))
      ]

  -- The wait for the conditions of a trigger ends with a match exactly when, in a round that begins
  -- before the time-out, each condition of the trigger holds of the last condition of its type that was
  -- fetched, and in every round before it the conditions were fetched without an error.
  pub match_conditions-eq-true_iff :
      (rounds : List (Result E (List Condition)))
      → (match_conditions spec rounds ≡ ok true) ↔ MatchesIn rounds
  match_conditions-eq-true_iff rounds = (forth rounds, back rounds)
