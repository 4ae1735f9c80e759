-- ===== src/Base/Maps.antt =====
-- A Go map with string keys, as an association list.
use Prim.Native.String.{String}
use mathlib.Core.Path.{◌≡◌, refl, sym, ap, subst}
use mathlib.Core.Logic.{inl, inr}
use mathlib.Core.Bool.{true, false}
use mathlib.Core.List.{List, [], ◌∷◌, Memᴰ}
use mathlib.Core.Option.{Option, none, some}
use native.Mathlib.Omega.{arith}
use text.Mathlib.Text.{◌==◌}
use text.Mathlib.TextEquality.{eq_iff}
use testkube.Base.Tests.{if◌then◌else◌, Bool-cases}

abbrev pub Map {ℓ} : Type ℓ → Type ℓ
Map V = List (String × V)

-- The first of two values that is there.
abbrev pub or_else {ℓ} : {A : Type ℓ} → Option A → Option A → Option A
or_else none y = y
or_else (some a) y = some a

module _ {ℓ} {V : Type ℓ} where
  -- `m[key]`, or nothing where the key is missing.
  unfoldable pub lookup : String → Map V → Option V
  lookup key [] = none
  lookup key ((at, value) ∷ rest) =
      let later = lookup key rest in if at == key then some value else later

  -- `m[key] = value`
  unfoldable pub insert : String → V → Map V → Map V
  insert key value [] = (key, value) ∷ []
  insert key value ((at, old) ∷ rest) =
      let later = insert key value rest in
      if at == key then (key, value) ∷ rest else (at, old) ∷ later

  unfoldable pub delete : String → Map V → Map V
  delete k [] = []
  delete k ((j, w) ∷ m) = let rest = delete k m in if j == k then rest else (j, w) ∷ rest

  -- `for k, v := range m { res[k] = v }`, the entries in the order of the list.
  unfoldable pub insert_all : Map V → Map V → Map V
  insert_all [] res = res
  insert_all ((k, v) ∷ m) res = insert_all m (insert k v res)

  -- Only the key that is written changes its value.
  pub lookup-insert :
      (key other : String) (value : V) (m : Map V)
      → lookup other (insert key value m) ≡ (if key == other then some value else lookup other m)
  unfolding lookup insert
  lookup-insert key other value [] = refl
  lookup-insert key other value ((at, old) ∷ rest) =
      ground (
        arith,
        lookup-insert key other value rest,
        eq_iff at key,
        eq_iff at other,
        eq_iff key other,
      )

  pub lookup-delete :
      (k j : String) (m : Map V) → lookup j (delete k m) ≡ (if k == j then none else lookup j m)
  unfolding lookup delete
  lookup-delete k j [] = ground arith
  lookup-delete k j ((i, w) ∷ m) =
      ground (arith, eq_iff k j, eq_iff i k, eq_iff i j, lookup-delete k j m)

  -- No key stands twice, as in every Go map.
  abbrev pub Fresh : String → Map V → Type 0
  Fresh k [] = Unit
  Fresh k ((j, w) ∷ m) = ((j == k) ≡ false) × Fresh k m

  abbrev pub IsMap : Map V → Type 0
  IsMap [] = Unit
  IsMap ((k, v) ∷ m) = Fresh k m × IsMap m

  pub lookup-Fresh : (k : String) (m : Map V) → Fresh k m → lookup k m ≡ none
  unfolding lookup
  lookup-Fresh k [] h = refl
  lookup-Fresh k ((j, w) ∷ m) h = rw h.0 (lookup-Fresh k m h.1)

  -- A range over a map writes every entry: a key of it has its value, any other is unchanged.
  pub lookup-insert_all :
      (j : String) (m res : Map V)
      → IsMap m
      → lookup j (insert_all m res) ≡ or_else (lookup j m) (lookup j res)
  unfolding lookup insert_all
  lookup-insert_all j [] res h = refl
  lookup-insert_all j ((k, v) ∷ m) res h = ground (
    arith,
    eq_iff k j,
    lookup-insert_all j m (insert k v res) h.1,
    lookup-insert k j v res,
    lookup-Fresh k m h.0,
  )

  Fresh-insert :
      (k j : String) (v : V) (m : Map V) → (k == j) ≡ false → Fresh j m → Fresh j (insert k v m)
  unfolding insert
  Fresh-insert k j v [] h f = (h, tt)
  Fresh-insert k j v ((i, w) ∷ m) h f = elim (Bool-cases (i == k)) [
    | inl same ↦ rw same (h, f.1)
    | inr other ↦ rw other (f.0, Fresh-insert k j v m h f.1)
  ]

  pub insert-IsMap : (k : String) (v : V) (m : Map V) → IsMap m → IsMap (insert k v m)
  unfolding insert
  insert-IsMap k v [] h = (tt, tt)
  insert-IsMap k v ((i, w) ∷ m) h = elim (Bool-cases (i == k)) [
    | inl same ↦ rw same (subst (λ j. Fresh j m) ((eq_iff i k).0 same) h.0, h.1)
    | inr other ↦
        rw other (
          Fresh-insert k i v m (ground (arith, eq_iff i k, eq_iff k i)) h.0,
          insert-IsMap k v m h.1,
        )
  ]

  pub insert_all-IsMap : (m res : Map V) → IsMap res → IsMap (insert_all m res)
  unfolding insert_all
  insert_all-IsMap [] res h = h
  insert_all-IsMap ((k, v) ∷ m) res h = insert_all-IsMap m (insert k v res) (insert-IsMap k v res h)

  pub lookup-Mem : (k : String) (m : Map V) {v : V} → lookup k m ≡ some v → Memᴰ (k, v) m
  unfolding lookup
  lookup-Mem k [] h = absurd (ground arith)
  lookup-Mem k ((j, w) ∷ m) {v} h = elim (Bool-cases (j == k)) [
    | inl same ↦
        let key : k ≡ j = sym ((eq_iff j k).0 same) in
        let value : v ≡ w = let e = rw same at h in cc in Memᴰ.head (λ i. (key i, value i))
    | inr other ↦ Memᴰ.tail (lookup-Mem k m (rw other at h))
  ]

  pub Fresh-Mem : (k j : String) {v : V} (m : Map V) → Fresh k m → Memᴰ (j, v) m → (j == k) ≡ false
  Fresh-Mem k j [] f p = elim p [ ]
  Fresh-Mem k j (e ∷ m) f (Memᴰ.head p) = subst (λ i. (i == k) ≡ false) (sym (ap (λ e. e.0) p)) f.0
  Fresh-Mem k j (e ∷ m) f (Memᴰ.tail p) = Fresh-Mem k j m f.1 p

  pub Mem-lookup : (k : String) {v : V} (m : Map V) → IsMap m → Memᴰ (k, v) m → lookup k m ≡ some v
  unfolding lookup
  Mem-lookup k [] h p = elim p [ ]
  Mem-lookup k ((j, w) ∷ m) h (Memᴰ.head p) =
      let same : j ≡ k = sym (ap (λ e. e.0) p) in
      let test : (j == k) ≡ true = (eq_iff j k).1 same in rw test (ap some (sym (ap (λ e. e.1) p)))
  Mem-lookup k ((j, w) ∷ m) h (Memᴰ.tail p) =
      let other : (j == k) ≡ false =
        ground (arith, eq_iff j k, eq_iff k j, Fresh-Mem j k m h.0 p) in
      rw other (Mem-lookup k m h.1 p)

  -- What holds of every entry.
  abbrev pub Each {ℓ'} : (P : String → V → Type ℓ') → Map V → Type ℓ'
  Each P [] = Unit
  Each P ((k, v) ∷ m) = P k v × Each P m

  pub insert-Each {ℓ'} :
      (P : String → V → Type ℓ') (k : String) (v : V) (m : Map V)
      → P k v
      → Each P m
      → Each P (insert k v m)
  unfolding insert
  insert-Each P k v [] p h = (p, tt)
  insert-Each P k v ((j, w) ∷ m) p h = elim (Bool-cases (j == k)) [
    | inl same ↦ rw same (p, h.1)
    | inr other ↦ rw other (h.0, insert-Each P k v m p h.1)
  ]

  pub Mem-Each {ℓ'} :
      (P : String → V → Type ℓ') {k : String} {v : V} (m : Map V) → Each P m → Memᴰ (k, v) m → P k v
  Mem-Each P [] h p = elim p [ ]
  Mem-Each P ((j, w) ∷ m) h (Memᴰ.head p) = subst (λ e. P e.0 e.1) (sym p) h.0
  Mem-Each P ((j, w) ∷ m) h (Memᴰ.tail p) = Mem-Each P m h.1 p
