-- ===== src/Base/Slices.antt =====
-- Go slices: indexing, the first elements, and the move that `append(s[:i], s[i+1:]...)` makes in the
-- array of the slice.
use Prim.Native.Nat.{ℕ, zero, suc, ◌+◌, ◌≤◌}
use mathlib.Core.Path.{◌≡◌, refl, ap, ◌∙◌}
use mathlib.Core.List.{List, [], ◌∷◌, ◌++◌}
use mathlib.Core.Option.{Option, none, some}
use native.Mathlib.Omega.{arith}
use testkube.Base.Lists.{length, last_or}

module _ {ℓ} {A : Type ℓ} where
  abbrev pub get_elem? : List A → ℕ → Option A
  get_elem? [] i = none
  get_elem? (x ∷ xs) zero = some x
  get_elem? (x ∷ xs) (suc i) = get_elem? xs i

  abbrev pub take : ℕ → List A → List A
  take zero xs = []
  take (suc n) [] = []
  take (suc n) (x ∷ xs) = x ∷ take n xs

  -- The array after the elements from `i + 1` up to the length `len` are moved down by one: the one
  -- at `len - 1` stays as well.
  unfoldable pub move_down : ℕ → ℕ → List A → List A
  move_down i len [] = []
  move_down i zero (x ∷ xs) = x ∷ xs
  move_down (suc i) (suc len) (x ∷ xs) = x ∷ move_down i len xs
  move_down zero (suc len) (x ∷ []) = x ∷ []
  move_down zero (suc zero) (x ∷ y ∷ xs) = x ∷ y ∷ xs
  move_down zero (suc (suc len)) (x ∷ y ∷ xs) = y ∷ move_down zero (suc len) (y ∷ xs)

  pub get_elem?-append :
      (xs ys : List A) (i : ℕ) → get_elem? (xs ++ ys) (length xs + i) ≡ get_elem? ys i
  get_elem?-append [] ys i = ap (get_elem? ys) (omega arith)
  get_elem?-append (x ∷ xs) ys i =
      let e : suc (length xs) + i ≡ suc (length xs + i) = omega arith in
      ap (get_elem? (x ∷ xs ++ ys)) e ∙ get_elem?-append xs ys i

  pub take-append : (xs ys : List A) → take (length xs) (xs ++ ys) ≡ xs
  take-append [] ys = refl
  take-append (x ∷ xs) ys = ap (◌∷◌ x) (take-append xs ys)

  move_down-zero :
      (x : A) (xs : List A) → move_down 0 (suc (length xs)) (x ∷ xs) ≡ xs ++ last_or x xs ∷ []
  unfolding move_down
  move_down-zero x [] = refl
  move_down-zero x (y ∷ xs) = ap (◌∷◌ y) (move_down-zero y xs)

  -- Moving down over an element drops it; the last element then stands twice.
  pub move_down-append :
      (xs ys : List A) (x : A)
      → move_down (length xs) (length (xs ++ x ∷ ys)) (xs ++ x ∷ ys) ≡ xs ++ ys ++ last_or x ys ∷ []
  unfolding move_down
  move_down-append [] ys x = move_down-zero x ys
  move_down-append (z ∷ xs) ys x = ap (◌∷◌ z) (move_down-append xs ys x)

  -- What stands at the end of the slice or behind it is not changed.
  pub get_elem?-move_down :
      (i len k : ℕ) (xs : List A) → len ≤ suc k → get_elem? (move_down i len xs) k ≡ get_elem? xs k
  unfolding move_down
  get_elem?-move_down i len k [] h = refl
  get_elem?-move_down i zero k (x ∷ xs) h = refl
  get_elem?-move_down (suc i) (suc len) zero (x ∷ xs) h = refl
  get_elem?-move_down (suc i) (suc len) (suc k) (x ∷ xs) h =
      get_elem?-move_down i len k xs (omega (arith, h))
  get_elem?-move_down zero (suc len) k (x ∷ []) h = refl
  get_elem?-move_down zero (suc zero) k (x ∷ y ∷ xs) h = refl
  get_elem?-move_down zero (suc (suc len)) zero (x ∷ y ∷ xs) h = absurd (omega (arith, h))
  get_elem?-move_down zero (suc (suc len)) (suc k) (x ∷ y ∷ xs) h =
      get_elem?-move_down zero (suc len) k (y ∷ xs) (omega (arith, h))
