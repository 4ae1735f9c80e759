-- ===== src/Triggers/Status/Removal.antt =====
-- The loop of removeExecutionID and removeTestSuiteExecutionID (status.go).
use testkube.Base.{
  ℕ, zero, suc, ◌+◌, ◌-◌, ◌≤◌, ◌<◌, String, true, false, ◌==◌, ◌≡◌, ◌≢◌, refl, ap, ◌∙◌, inl, inr,
  none, some, List, [], ◌∷◌, ◌++◌, All, All-append, length, length-append, last_or, leb, arith,
  eq_iff, eq_refl, Bool-cases, Option-cases, get_elem?, move_down, append_assoc, append-nil,
  get_elem?-append, take-append, move_down-append, get_elem?-move_down,
}
use testkube.Triggers.Status.{remove_loop, remove_id}

-- No element is the target.
abbrev pub Lacks : String → List String → Type 0
Lacks target = All (λ id. (id == target) ≡ false)

middle :
    (seen rest : List String) (x : String) → get_elem? (seen ++ x ∷ rest) (length seen) ≡ some x
middle seen rest x =
    ap (get_elem? (seen ++ x ∷ rest)) (omega arith) ∙ get_elem?-append seen (x ∷ rest) 0

length-snoc : (seen : List String) (x : String) → length (seen ++ x ∷ []) ≡ suc (length seen)
length-snoc seen x = omega (arith, length-append seen (x ∷ []))

last_or-snoc : (d x : String) (xs : List String) → last_or d (xs ++ x ∷ []) ≡ x
last_or-snoc d x [] = refl
last_or-snoc d x (y ∷ xs) = last_or-snoc y x xs

module _ (target : String) where
  -- One round, by what stands at its index.
  module _ (n i len : ℕ) (array : List String) (x : String) where
    step_other :
        get_elem? array i ≡ some x
        → (x == target) ≡ false
        → remove_loop target (suc n) i (array, len) ≡ remove_loop target n (suc i) (array, len)
    unfolding remove_loop
    step_other at other = rw (at, other) refl

    step_cut :
        get_elem? array i ≡ some x
        → (x == target) ≡ true
        → i < len
        → remove_loop target (suc n) i (array, len)
          ≡ remove_loop target n (suc i) (move_down i len array, len - 1)
    unfolding remove_loop
    step_cut at same inside =
        let fits : leb (suc i) len ≡ true = ground (arith, inside) in rw (at, same, fits) refl

    step_panic :
        get_elem? array i ≡ some x
        → (x == target) ≡ true
        → len ≤ i
        → remove_loop target (suc n) i (array, len) ≡ none
    unfolding remove_loop
    step_panic at same outside =
        let short : leb (suc i) len ≡ false = ground (arith, outside) in rw (at, same, short) refl

  -- Rounds that meet no target change nothing.
  skip :
      (seen pre rest : List String) (m len : ℕ)
      → Lacks target pre
      → remove_loop target (length pre + m) (length seen) (seen ++ (pre ++ rest), len)
        ≡ remove_loop target m (length (seen ++ pre)) (seen ++ (pre ++ rest), len)
  skip seen [] rest m len h = let z : 0 + m ≡ m = omega arith in rw (z, append-nil) refl
  skip seen (x ∷ pre) rest m len h =
      let z : suc (length pre) + m ≡ suc (length pre + m) = omega arith in
      let ih = skip (seen ++ x ∷ []) pre rest m len h.1 in
      rw z (
        step_other (length pre + m) (length seen) len (seen ++ x ∷ (pre ++ rest)) x
          (middle seen (pre ++ rest) x) h.0
        ∙ rw (length-snoc seen x, append_assoc, append_assoc) at ih)

  last_Lacks :
      (x : String) (ys : List String)
      → Lacks target ys
      → 1 ≤ length ys
      → (last_or x ys == target) ≡ false
  last_Lacks x [] h some_left = absurd (omega (arith, some_left))
  last_Lacks x (y ∷ []) h _ = h.0
  last_Lacks x (y ∷ z ∷ ys) h _ = last_Lacks y (z ∷ ys) h.1 (omega arith)

  -- Behind a cut, whose last element stands twice, the rounds that are left meet no target.
  rest_quiet :
      (pre post : List String)
      → Lacks target post
      → remove_loop target
          (length post)
          (suc (length pre))
          ((pre ++ post) ++ last_or target post ∷ [], length (pre ++ post))
        ≡ some (pre ++ post)
  unfolding remove_loop
  rest_quiet pre [] h = rw (append-nil, take-append pre (target ∷ [])) refl
  rest_quiet pre (y ∷ ys) h =
      let l = last_or target (y ∷ ys) in
      let len = length (pre ++ y ∷ ys) in
      let array : (pre ++ y ∷ ys) ++ l ∷ [] ≡ (pre ++ y ∷ []) ++ (ys ++ l ∷ [] ++ []) =
        rw (append-nil, append_assoc, append_assoc) refl in
      let rounds : suc (length ys) ≡ length (ys ++ l ∷ []) + 0 = omega (arith, length-snoc ys l) in
      let lacks : Lacks target (ys ++ l ∷ []) =
        All-append _ ys (l ∷ []) h.1 (last_Lacks target (y ∷ ys) h (omega arith), tt) in
      cc (
        array,
        rounds,
        length-snoc pre y,
        skip (pre ++ y ∷ []) (ys ++ l ∷ []) [] 0 len lacks,
        take-append (pre ++ y ∷ ys) (l ∷ []),
      )

  first_cut :
      (pre post : List String)
      → Lacks target pre
      → remove_id target (pre ++ target ∷ post)
        ≡ remove_loop target
            (length post)
            (suc (length pre))
            ((pre ++ post) ++ last_or target post ∷ [], length (pre ++ post))
  unfolding remove_id
  first_cut pre post h =
      let array = pre ++ target ∷ post in
      let rounds : length array ≡ length pre + suc (length post) =
        omega (arith, length-append pre (target ∷ post)) in
      let less : length array - 1 ≡ length (pre ++ post) =
        omega (arith, length-append pre (target ∷ post), length-append pre post) in
      cc (
        rounds,
        less,
        skip [] pre (target ∷ post) (suc (length post)) (length array) h,
        step_cut (length post) (length pre) (length array) array target (middle pre post target)
            (eq_refl target) (omega (arith, rounds)),
        move_down-append pre post target,
      )

  -- An id that stands once is removed, and the others are left in their order.
  pub remove_id-once :
      (pre post : List String)
      → Lacks target pre
      → Lacks target post
      → remove_id target (pre ++ target ∷ post) ≡ some (pre ++ post)
  remove_id-once pre post before after = first_cut pre post before ∙ rest_quiet pre post after

  pub remove_id-Lacks : (ids : List String) → Lacks target ids → remove_id target ids ≡ some ids
  unfolding remove_id remove_loop
  remove_id-Lacks ids h =
      let rounds : length ids + 0 ≡ length ids = omega arith in
      cc (rounds, append-nil ids, skip [] ids [] 0 (length ids) h, take-append ids [])

  -- The target does not stand where another element does.
  apart :
      (i k : ℕ) (array : List String) (x : String)
      → get_elem? array k ≡ some target
      → get_elem? array i ≡ some x
      → (x == target) ≡ false
      → i ≢ k
  apart i k array x last at other same =
      let e : x ≡ target = cc (last, at, same) in absurd (ground (arith, eq_iff x target))

  -- Where the target stands at the end of the array and the slice was cut before, some round panics.
  stuck :
      (n i len k : ℕ) (array : List String)
      → get_elem? array k ≡ some target
      → i + n ≡ suc k
      → i ≤ k
      → len ≤ k
      → remove_loop target n i (array, len) ≡ none
  unfolding remove_loop
  stuck zero i len k array last sum low short = absurd (omega (arith, sum, low))
  stuck (suc n) i len k array last sum low short = elim (Option-cases (get_elem? array i)) [
    | inl out ↦ rw out refl
    | inr (x, at) ↦ elim (Bool-cases (x == target)) [
      | inl same ↦ elim (Bool-cases (leb (suc i) len)) [
        | inl inside ↦
            step_cut n i len array x at same (ground arith)
            ∙ stuck n (suc i) (len - 1) k (move_down i len array)
                (get_elem?-move_down i len k array (omega (arith, short)) ∙ last)
                (omega (arith, sum)) (ground arith) (omega (arith, short))
        | inr outside ↦ step_panic n i len array x at same (ground arith)
      ]
      | inr other ↦
          step_other n i len array x at other
          ∙ stuck n (suc i) len k array last (omega (arith, sum))
              (omega (arith, low, apart i k array x last at other)) short
    ]
  ]

  -- Removing an id that stands in the list before its last place, and in the last place too, panics.
  pub remove_id-twice :
      (pre mid : List String)
      → Lacks target pre
      → remove_id target (pre ++ target ∷ (mid ++ target ∷ [])) ≡ none
  remove_id-twice pre mid h =
      let post = mid ++ target ∷ [] in
      let k = length pre + length post in
      first_cut pre post h
      ∙ stuck (length post) (suc (length pre)) (length (pre ++ post)) k
          ((pre ++ post) ++ last_or target post ∷ [])
          (cc (
            middle (pre ++ post) [] (last_or target post),
            last_or-snoc target target mid,
            length-append pre post,
          ))
          (omega arith) (omega (arith, length-snoc mid target))
          (omega (arith, length-append pre post))
