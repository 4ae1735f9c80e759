-- ===== src/Event/Emitter/Last.antt =====
-- pkg/event/emitter.go: the listener that a map of UpdateListeners keeps of those of one kind and name.
use testkube.Base.{
  String, ◌≡◌, refl, sym, ap, subst, ◌==◌, eq_iff, true, Bool-cases, inl, inr, Option, none, some,
  List, [], ◌∷◌, Memᴰ, if◌then◌else◌, arith, lookup, ◌∙◌, ◌↔◌,
}
use testkube.Event.Listeners.{Listener}
use testkube.Event.Emitter.{Index, index_from, all_listeners}
use testkube.Event.Emitter.Index.{
  find, IsNamed, IsIndex, index_from-IsIndex, last_of, find-index_from,
}
use testkube.Event.Emitter.Members.{all_listeners-Mem_iff}

last_of-sound :
    (kind name : String) (ls all : List Listener) (found : Option Listener) {l : Listener}
    → ((k : Listener) → Memᴰ k ls → Memᴰ k all)
    → (found ≡ some l → Memᴰ l all × IsNamed kind name l)
    → last_of kind name ls found ≡ some l
    → Memᴰ l all × IsNamed kind name l
last_of-sound kind name [] all found within h e = h e
last_of-sound kind name (x ∷ ls) all found {l} within h e =
    last_of-sound kind name ls all _ (λ k p. within k (Memᴰ.tail p)) step e
  where
    step :
        (if x.kind == kind then (if x.name == name then some x else found) else found) ≡ some l
        → Memᴰ l all × IsNamed kind name l
    step = elim (Bool-cases (x.kind == kind)) [
      | inr other ↦ rw other h
      | inl same ↦ elim (Bool-cases (x.name == name)) [
        | inr other ↦ rw (same, other) h
        | inl both ↦
            rw (same, both)
              (λ e.
                let this : x ≡ l = cc in
                subst (λ l. Memᴰ l all × IsNamed kind name l) this
                  (
                    within x (Memᴰ.head refl),
                    ((eq_iff x.kind kind).0 same, (eq_iff x.name name).0 both),
                  ))
      ]
    ]

last_of-kept :
    (kind name : String) (ls : List Listener) (found : Option Listener) {k : Listener}
    → found ≡ some k
    → (l : Listener) × (last_of kind name ls found ≡ some l)
last_of-kept kind name [] found {k} e = (k, e)
last_of-kept kind name (x ∷ ls) found {k} e = elim (Bool-cases (x.kind == kind)) [
  | inr other ↦ rw other (last_of-kept kind name ls found e)
  | inl same ↦ elim (Bool-cases (x.name == name)) [
    | inr other ↦ rw (same, other) (last_of-kept kind name ls found e)
    | inl both ↦ rw (same, both) (last_of-kept kind name ls (some x) refl)
  ]
]

last_of-found :
    (ls : List Listener) (found : Option Listener) {l : Listener}
    → Memᴰ l ls
    → (k : Listener) × (last_of l.kind l.name ls found ≡ some k)
last_of-found [] found p = elim p [ ]
last_of-found (x ∷ ls) found {l} (Memᴰ.tail p) = last_of-found ls _ p
last_of-found (x ∷ ls) found {l} (Memᴰ.head p) =
    let kind : (x.kind == l.kind) ≡ true = (eq_iff x.kind l.kind).1 (ap (λ l. l.kind) (sym p)) in
    let name : (x.name == l.name) ≡ true = (eq_iff x.name l.name).1 (ap (λ l. l.name) (sym p)) in
    rw (kind, name) (last_of-kept l.kind l.name ls (some x) refl)

-- The index of a list, filled from an empty one.
abbrev pub index : List Listener → Index
index ls = index_from ls []

pub index-IsIndex : (ls : List Listener) → IsIndex (index ls)
index-IsIndex ls = index_from-IsIndex ls [] (tt, tt)

-- What stands in the index under a kind and a name is a listener of the list with them.
pub find-index :
    (kind name : String) (ls : List Listener) {l : Listener}
    → find kind name (index ls) ≡ some l
    → Memᴰ l ls × IsNamed kind name l
unfolding lookup
find-index kind name ls e =
    last_of-sound kind name ls ls none (λ k p. p) (λ bad. absurd (ground arith))
      (sym (find-index_from kind name ls []) ∙ e)

-- The listeners of the index are those of the list that none of their kind and name follows.
pub index-Mem_iff :
    (ls : List Listener) (l : Listener)
    → Memᴰ l (all_listeners (index ls)) ↔ (last_of l.kind l.name ls none ≡ some l)
unfolding lookup
index-Mem_iff ls l =
    let at = find-index_from l.kind l.name ls [] in
    let iff = all_listeners-Mem_iff (index ls) l (index-IsIndex ls) in
    (λ p. sym at ∙ iff.0 p, λ e. iff.1 (at ∙ e))

-- For each listener of the list the index has one of its kind and name.
pub index-has :
    (ls : List Listener) {l : Listener}
    → Memᴰ l ls
    → (k : Listener) × Memᴰ k (all_listeners (index ls)) × IsNamed l.kind l.name k
unfolding lookup
index-has ls {l} p =
    let r = last_of-found ls none p in
    let at : find l.kind l.name (index ls) ≡ some r.0 = find-index_from l.kind l.name ls [] ∙ r.1 in
    let named : IsNamed l.kind l.name r.0 = (find-index l.kind l.name ls at).1 in
    (
      r.0,
      (all_listeners-Mem_iff (index ls) r.0 (index-IsIndex ls)).1 (rw (named.0, named.1) at),
      named,
    )
