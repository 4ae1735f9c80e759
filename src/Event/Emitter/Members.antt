-- ===== src/Event/Emitter/Members.antt =====
-- pkg/event/emitter.go: the listeners of the maps of UpdateListeners, each once.
use testkube.Base.{
  String, ◌≡◌, refl, ap, ◌∙◌, eq_iff, inl, inr, ◌↔◌, some, Option-cases, List, [], ◌∷◌, ◌++◌, Memᴰ,
  Map, IsMap, Each, lookup, lookup-Mem, Mem-lookup, Mem-Each, Fresh, Fresh-Mem, subst, arith,
}
use testkube.Event.Listeners.{Listener}
use testkube.Event.Emitter.{Index, listeners_of, all_listeners}
use testkube.Event.Emitter.Index.{find, IsNamed, IsKind, IsIndex}
use mathlib.Core.List.Memᴰ

Mem-listeners_of :
    (kind : String) (m : Map Listener) {l : Listener}
    → Each (IsNamed kind) m
    → Memᴰ l (listeners_of m)
    → (l.kind ≡ kind) × Memᴰ (l.name, l) m
unfolding listeners_of
Mem-listeners_of kind [] h p = elim p [ ]
Mem-listeners_of kind ((n, k) ∷ m) h (Memᴰ.head p) =
    let name = ap (λ l. l.name) p ∙ h.0.1 in
    (ap (λ l. l.kind) p ∙ h.0.0, Memᴰ.head (λ i. (name i, p i)))
Mem-listeners_of kind ((n, k) ∷ m) h (Memᴰ.tail p) =
    let r = Mem-listeners_of kind m h.1 p in (r.0, Memᴰ.tail r.1)

listeners_of-Mem :
    (m : Map Listener) {n : String} {l : Listener} → Memᴰ (n, l) m → Memᴰ l (listeners_of m)
unfolding listeners_of
listeners_of-Mem [] p = elim p [ ]
listeners_of-Mem ((j, k) ∷ m) (Memᴰ.head p) = Memᴰ.head (ap (λ e. e.1) p)
listeners_of-Mem ((j, k) ∷ m) (Memᴰ.tail p) = Memᴰ.tail (listeners_of-Mem m p)

Mem-all_listeners :
    (i : Index) {l : Listener}
    → Each IsKind i
    → Memᴰ l (all_listeners i)
    → (m : Map Listener) × Memᴰ (l.kind, m) i × Memᴰ (l.name, l) m
unfolding all_listeners
Mem-all_listeners [] h p = elim p [ ]
Mem-all_listeners ((k, m) ∷ i) h p = elim (Memᴰ.append_cases (listeners_of m) p) [
  | inl here ↦
      let r = Mem-listeners_of k m h.0.1 here in
      let kind = r.0 in (m, Memᴰ.head (λ j. (kind j, m)), r.1)
  | inr later ↦ let r = Mem-all_listeners i h.1 later in (r.0, Memᴰ.tail r.1, r.2)
]

all_listeners-Mem :
    (i : Index) {k : String} {m : Map Listener} {l : Listener}
    → Memᴰ (k, m) i
    → Memᴰ l (listeners_of m)
    → Memᴰ l (all_listeners i)
unfolding all_listeners
all_listeners-Mem [] p q = elim p [ ]
all_listeners-Mem ((j, w) ∷ i) {k} {m} {l} (Memᴰ.head p) q =
    let same : Memᴰ l (listeners_of w) = subst (λ w. Memᴰ l (listeners_of w)) (ap (λ e. e.1) p) q in
    Memᴰ.append_left (all_listeners i) same
all_listeners-Mem ((j, w) ∷ i) (Memᴰ.tail p) q =
    Memᴰ.append_right (listeners_of w) (all_listeners-Mem i p q)

-- The listeners of an index are those that stand in it under their kind and name.
pub all_listeners-Mem_iff :
    (i : Index) (l : Listener)
    → IsIndex i
    → Memᴰ l (all_listeners i) ↔ (find l.kind l.name i ≡ some l)
unfolding lookup
all_listeners-Mem_iff i l h = (
  λ p.
      let r = Mem-all_listeners i h.1 p in
      let at : lookup l.kind i ≡ some r.0 = Mem-lookup l.kind i h.0 r.1 in
      let inner : IsKind l.kind r.0 = Mem-Each IsKind i h.1 r.1 in
      rw at (Mem-lookup l.name r.0 inner.0 r.2),
  λ e. elim (Option-cases (lookup l.kind i)) [
    | inl missing ↦ let bad = rw missing at e in absurd (ground arith)
    | inr (m, at) ↦
        all_listeners-Mem i (lookup-Mem l.kind i at)
          (listeners_of-Mem m (lookup-Mem l.name m (rw at at e)))
  ],
)

-- No listener of a list has the kind and the name of another one.
abbrev pub IsOther : Listener → Listener → Type 0
IsOther x l = IsNamed x.kind x.name l → ⊥

abbrev pub Once : List Listener → Type 0
Once [] = Unit
Once (x ∷ ls) = ((l : Listener) → Memᴰ l ls → IsOther x l) × Once ls

Once-append :
    (s t : List Listener)
    → Once s
    → Once t
    → ((x l : Listener) → Memᴰ x s → Memᴰ l t → IsOther x l)
    → Once (s ++ t)
Once-append [] t h g apart = g
Once-append (x ∷ s) t h g apart = (
  λ l p. elim (Memᴰ.append_cases s p) [
    | inl here ↦ h.0 l here
    | inr there ↦ apart x l (Memᴰ.head refl) there
  ],
  Once-append s t h.1 g (λ y l p q. apart y l (Memᴰ.tail p) q),
)

-- A key that is not in a map is not that of an entry.
Fresh-differs :
    {V : Type 0} {j k : String} {v : V} (m : Map V) → Fresh k m → Memᴰ (j, v) m → j ≡ k → ⊥
Fresh-differs {V} {j} {k} m f p same =
    let test = Fresh-Mem k j m f p in let other = (eq_iff j k).1 same in cc

listeners_of-Once :
    (kind : String) (m : Map Listener) → IsMap m → Each (IsNamed kind) m → Once (listeners_of m)
unfolding listeners_of
listeners_of-Once kind [] f h = tt
listeners_of-Once kind ((n, x) ∷ m) f h = (
  λ l p same. let r = Mem-listeners_of kind m h.1 p in Fresh-differs m f.0 r.1 (same.1 ∙ h.0.1),
  listeners_of-Once kind m f.1 h.1,
)

pub all_listeners-Once : (i : Index) → IsIndex i → Once (all_listeners i)
unfolding all_listeners
all_listeners-Once [] h = tt
all_listeners-Once ((k, m) ∷ i) (f, h) =
    Once-append (listeners_of m) (all_listeners i) (listeners_of-Once k m h.0.0 h.0.1)
      (all_listeners-Once i (f.1, h.1))
      (λ x l p q same.
        let here = Mem-listeners_of k m h.0.1 p in
        let there = Mem-all_listeners i h.1 q in Fresh-differs i f.0 there.1 (same.0 ∙ here.0))
