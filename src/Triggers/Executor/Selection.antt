-- ===== src/Triggers/Executor/Selection.antt =====
-- Which items getTests and getTestSuites return (executor.go).
use testkube.Base.{
  String, Bool, true, false, ◌==◌, ◌≡◌, sym, ap, subst, ◌∙◌, ◌↔◌, ◌⊎◌, inl, inr, some, List, [],
  ◌∷◌, ◌++◌, Memᴰ, arith, ok, select, select-Mem_iff, Bool-cases, Option-cases, Result-cases,
}
use mathlib.Core.List.Memᴰ.{cases_cons, append_cases, append_left, append_right}
use testkube.Triggers.Trigger.{Selector}
use testkube.Triggers.Executor.{Items, by_name, by_name_regex, by_labels, get_items}

module _ {L E I : Type 0} (items : Items L E I) (s : Selector L) (x : I) where
  -- The selector names the item.
  abbrev pub IsNamed : Type 0
  IsNamed = ((s.name == "") ≡ false) × (items.get s.name ≡ ok x)

  -- The item is one of all, and its name matches the pattern.
  abbrev pub IsMatched : Type 0
  IsMatched =
      ((s.name_regex == "") ≡ false)
      × ((found : List I) × (items.list "" ≡ ok found) × Memᴰ x found)
      × ((matches : String → Bool) × (items.compile s.name_regex ≡ ok matches)
          × (matches (items.name_of x) ≡ true))

  -- The item is one of those with the labels.
  abbrev pub IsLabelled : Type 0
  IsLabelled =
      (l : L) × (labels : String) × (found : List I) × (s.label_selector ≡ some l)
      × (items.stringified l ≡ ok labels)
      × (items.list labels ≡ ok found)
      × Memᴰ x found

  by_name-Mem_iff : (xs : List I) → by_name items s ≡ ok xs → Memᴰ x xs ↔ IsNamed
  unfolding by_name
  by_name-Mem_iff xs h = elim (Bool-cases (s.name == "")) [
    | inl unnamed ↦
        let nothing : xs ≡ [] = ground arith in
        rw nothing (λ m. elim m [ ], λ n. absurd (ground arith))
    | inr named ↦ elim (Result-cases (items.get s.name)) [
      | inl (e, failed) ↦ absurd (ground arith)
      | inr (i, got) ↦
          let single : xs ≡ i ∷ [] = ground arith in
          rw single (
            λ m. elim (cases_cons m) [ inl e ↦ (named, ground arith) | inr m ↦ elim m [ ] ],
            λ n. Memᴰ.head (ground arith),
          )
    ]
  ]

  by_name_regex-Mem_iff : (xs : List I) → by_name_regex items s ≡ ok xs → Memᴰ x xs ↔ IsMatched
  unfolding by_name_regex
  by_name_regex-Mem_iff xs h = elim (Bool-cases (s.name_regex == "")) [
    | inl unset ↦
        let nothing : xs ≡ [] = ground arith in
        rw nothing (λ m. elim m [ ], λ n. absurd (ground arith))
    | inr set ↦ elim (Result-cases (items.list "")) [
      | inl (e, failed) ↦ absurd (ground arith)
      | inr (found, listed) ↦ elim (Result-cases (items.compile s.name_regex)) [
        | inl (e, failed) ↦ absurd (ground arith)
        | inr (matches, compiled) ↦
            let selected : xs ≡ select (λ i. matches (items.name_of i)) found = ground arith in
            let both = select-Mem_iff (λ i. matches (items.name_of i)) {x = x} found in
            rw selected (
              λ m. let r = both.0 m in (set, (found, listed, r.0), (matches, compiled, r.1)),
              λ (_, (found', listed', m), (matches', compiled', matched)).
                  let same : found' ≡ found = ground arith in
                  let same_test : matches' ≡ matches = ground arith in
                  both.1 (
                    subst (Memᴰ x) same m,
                    ap (λ test. test (items.name_of x)) (sym same_test) ∙ matched,
                  ),
            )
      ]
    ]
  ]

  by_labels-Mem_iff : (xs : List I) → by_labels items s ≡ ok xs → Memᴰ x xs ↔ IsLabelled
  unfolding by_labels
  by_labels-Mem_iff xs h = elim (Option-cases s.label_selector) [
    | inl unset ↦
        let nothing : xs ≡ [] = ground arith in
        rw nothing (λ m. elim m [ ], λ (l, labels, found, named, _, _, _). absurd (ground arith))
    | inr (l, set) ↦ elim (Result-cases (items.stringified l)) [
      | inl (e, failed) ↦ absurd (ground arith)
      | inr (labels, written) ↦
          let listed : items.list labels ≡ ok xs = ground arith in
          (
            λ m. (l, labels, xs, set, written, listed, m),
            λ (l', labels', found', set', written', listed', m').
                let same_selector : l' ≡ l = ground arith in
                let same_labels : labels' ≡ labels = ground arith in
                let same : found' ≡ xs = ground arith in subst (Memᴰ x) same m',
          )
    ]
  ]

  -- When `getTests` or `getTestSuites` succeeds, the items that it returns are exactly the one that the
  -- selector names, those whose name matches its pattern, and those with its labels.
  pub get_items-Mem_iff :
      (xs : List I) → get_items items s ≡ ok xs → Memᴰ x xs ↔ (IsNamed ⊎ (IsMatched ⊎ IsLabelled))
  unfolding get_items
  get_items-Mem_iff xs h = elim (Result-cases (by_name items s)) [
    | inl (e, failed) ↦ absurd (ground arith)
    | inr (named, a) ↦ elim (Result-cases (by_name_regex items s)) [
      | inl (e, failed) ↦ absurd (ground arith)
      | inr (matched, b) ↦ elim (Result-cases (by_labels items s)) [
        | inl (e, failed) ↦ absurd (ground arith)
        | inr (labelled, c) ↦
            let whole : xs ≡ (named ++ matched) ++ labelled = ground arith in
            let n = by_name-Mem_iff named a in
            let r = by_name_regex-Mem_iff matched b in
            let l = by_labels-Mem_iff labelled c in
            rw whole (
              λ m. elim (append_cases (named ++ matched) m) [
                | inl m ↦ elim (append_cases named m) [
                  | inl m ↦ inl (n.0 m)
                  | inr m ↦ inr (inl (r.0 m))
                ]
                | inr m ↦ inr (inr (l.0 m))
              ],
              λ is. elim is [
                | inl i ↦ append_left labelled (append_left matched (n.1 i))
                | inr (inl i) ↦ append_left labelled (append_right named (r.1 i))
                | inr (inr i) ↦ append_right (named ++ matched) (l.1 i)
              ],
            )
      ]
    ]
  ]
