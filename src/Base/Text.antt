-- ===== src/Base/Text.antt =====
-- Texts taken apart at a character: `strings.Split` and `strings.Join`, and that they are inverse.
use Prim.Native.Nat.{ℕ}
use Prim.Native.Char.{Char, code}
use Prim.Native.String.{String, ◌++◌}
use mathlib.Core.Path.{◌≡◌, refl, ap, sym, ◌∙◌}
use mathlib.Core.Bool.{true, false}
use mathlib.Core.Logic.{inl, inr}
use mathlib.Core.List.{List, [], ◌∷◌}
use native.Mathlib.Omega.{arith}
use text.Mathlib.TextEquality.{Char-path}
use text.Mathlib.TextLemmas.{nil-append, cons-append}
use testkube.Base.Tests.{Bool-cases, nat_eq, if◌then◌else◌}
use testkube.Base.Lists.{All}

-- A character put in front of the first part.
abbrev pub extend_first : Char → List String → List String
extend_first c [] = String.◌∷◌ c String.[] ∷ []
extend_first c (x ∷ xs) = String.◌∷◌ c x ∷ xs

unfoldable pub split : Char → String → List String
split sep String.[] = String.[] ∷ []
split sep (String.◌∷◌ c s) =
    let rest = split sep s in
    if nat_eq (code c) (code sep) then String.[] ∷ rest else extend_first c rest

unfoldable pub join : Char → List String → String
join sep [] = String.[]
join sep (x ∷ []) = x
join sep (x ∷ y ∷ r) = x ++ String.◌∷◌ sep (join sep (y ∷ r))

abbrev pub Lacks : Char → String → Type 0
Lacks sep String.[] = Unit
Lacks sep (String.◌∷◌ c s) = (nat_eq (code c) (code sep) ≡ false) × Lacks sep s

split-Lacks : (sep : Char) (x : String) → Lacks sep x → split sep x ≡ x ∷ []
unfolding split
split-Lacks sep String.[] h = refl
split-Lacks sep (String.◌∷◌ c s) h = rw (h.0, split-Lacks sep s h.1)

nat_eq_refl : (n : ℕ) → nat_eq n n ≡ true
nat_eq_refl n = ground arith

split-append :
    (sep : Char) (x t : String) → Lacks sep x → split sep (x ++ String.◌∷◌ sep t) ≡ x ∷ split sep t
unfolding split
split-append sep String.[] t h = rw (nil-append, split, nat_eq_refl (code sep))
split-append sep (String.◌∷◌ c s) t h = rw (cons-append, split, h.0, split-append sep s t h.1)

-- Parts that lack the separator are got back.
pub split-join :
    (sep : Char) (x : String) (xs : List String)
    → All (Lacks sep) (x ∷ xs)
    → split sep (join sep (x ∷ xs)) ≡ x ∷ xs
unfolding join
split-join sep x [] h = split-Lacks sep x h.0
split-join sep x (y ∷ r) h = rw (split-append sep x (join sep (y ∷ r)) h.0, split-join sep y r h.1)

-- Printing the parts of a text with the separator gives the text back.
join-extend_first :
    (sep c : Char) (xs : List String) → join sep (extend_first c xs) ≡ String.◌∷◌ c (join sep xs)
unfolding join
join-extend_first sep c [] = refl
join-extend_first sep c (x ∷ []) = refl
join-extend_first sep c (x ∷ y ∷ r) = cons-append c x (String.◌∷◌ sep (join sep (y ∷ r)))

split-cons : (sep : Char) (s : String) → (x : String) × (xs : List String) × (split sep s ≡ x ∷ xs)
unfolding split
split-cons sep String.[] = (String.[], [], refl)
split-cons sep (String.◌∷◌ c s) =
    elim (nat_eq (code c) (code sep))
      as (λ b.
        (x : String) × (xs : List String) × ((if b
            then String.[] ∷ split sep s
            else extend_first c (split sep s))
          ≡ x ∷ xs)) [
            | true ↦ (String.[], split sep s, refl)
            | false ↦ let (x, xs, e) = split-cons sep s in (String.◌∷◌ c x, xs, rw e)
          ]

join-blank :
    (sep : Char) (x : String) (xs : List String)
    → join sep (String.[] ∷ x ∷ xs) ≡ String.◌∷◌ sep (join sep (x ∷ xs))
unfolding join
join-blank sep x xs = nil-append (String.◌∷◌ sep (join sep (x ∷ xs)))

-- The step of `join-split` at a separator.
join-first :
    (sep c : Char) (s : String)
    → nat_eq (code c) (code sep) ≡ true
    → ((x : String) × (xs : List String) × (split sep s ≡ x ∷ xs))
    → join sep (split sep s) ≡ s
    → join sep (String.[] ∷ split sep s) ≡ String.◌∷◌ c s
join-first sep c s same (x, xs, e) ih = rw e (
    join-blank sep x xs
    ∙ ap (String.◌∷◌ sep) (rw e at ih)
    ∙ ap (λ d. String.◌∷◌ d s) (sym (Char-path c sep (ground arith))))

pub join-split : (sep : Char) (s : String) → join sep (split sep s) ≡ s
unfolding split
join-split sep String.[] = unfold join in refl
join-split sep (String.◌∷◌ c s) = elim (Bool-cases (nat_eq (code c) (code sep))) [
  | inl same ↦ rw same (join-first sep c s same (split-cons sep s) (join-split sep s))
  | inr other ↦
      rw other (join-extend_first sep c (split sep s) ∙ ap (String.◌∷◌ c) (join-split sep s))
]

-- The texts one after the other, as `fmt.Sprintf` puts its arguments between constant texts.
unfoldable pub concat : List String → String
concat [] = String.[]
concat (x ∷ xs) = x ++ concat xs

append-blank : (s t : String) → s ++ t ≡ "" → (s ≡ "") × (t ≡ "")
append-blank String.[] t h = (refl, sym (nil-append t) ∙ h)
append-blank (String.◌∷◌ c s) t h =
    let bad : String.◌∷◌ c (s ++ t) ≡ String.[] = sym (cons-append c s t) ∙ h in cc

-- Texts put one after the other are empty only when all are.
pub concat-blank :
    (x : String) (xs : List String) → concat (x ∷ xs) ≡ "" → (x ≡ "") × (concat xs ≡ "")
unfolding concat
concat-blank x xs h = append-blank x (concat xs) h
