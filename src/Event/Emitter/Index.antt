-- ===== src/Event/Emitter/Index.antt =====
-- pkg/event/emitter.go: what the maps of UpdateListeners hold.
use testkube.Base.{
  String, ◌≡◌, refl, ap, ◌∙◌, ◌==◌, eq_iff, Bool-cases, inl, inr, Option, some, Option-cases, List,
  [], ◌∷◌, Map, IsMap, Each, lookup, insert, lookup-insert, lookup-Mem, Mem-Each, insert-IsMap,
  insert-Each, if◌then◌else◌,
}
use testkube.Event.Listeners.{Listener}
use testkube.Event.Emitter.{Index, or_empty, index_from}

-- `m[kind][name]`
abbrev pub find : String → String → Index → Option Listener
find kind name m = lookup name (or_empty (lookup kind m))

-- A listener stands under its own name, in a map of listeners of one kind.
abbrev pub IsNamed : String → String → Listener → Type 0
IsNamed kind name l = (l.kind ≡ kind) × (l.name ≡ name)

abbrev pub IsKind : String → Map Listener → Type 0
IsKind kind m = IsMap m × Each (IsNamed kind) m

abbrev pub IsIndex : Index → Type 0
IsIndex m = IsMap m × Each IsKind m

lookup-IsKind : (kind : String) (m : Index) → IsIndex m → IsKind kind (or_empty (lookup kind m))
lookup-IsKind kind m h = elim (Option-cases (lookup kind m)) [
  | inl e ↦ rw e (tt, tt)
  | inr (at, e) ↦ rw e (Mem-Each IsKind m h.1 (lookup-Mem kind m e))
]

pub index_from-IsIndex : (ls : List Listener) (m : Index) → IsIndex m → IsIndex (index_from ls m)
unfolding index_from
index_from-IsIndex [] m h = h
index_from-IsIndex (l ∷ ls) m h =
    let at = or_empty (lookup l.kind m) in
    let before : IsKind l.kind at = lookup-IsKind l.kind m h in
    let after : IsKind l.kind (insert l.name l at) = (
      insert-IsMap l.name l at before.0,
      insert-Each (IsNamed l.kind) l.name l at (refl, refl) before.1,
    ) in
    index_from-IsIndex ls (insert l.kind (insert l.name l at) m) (
      insert-IsMap l.kind (insert l.name l at) m h.0,
      insert-Each IsKind l.kind (insert l.name l at) m after h.1,
    )

-- The last listener of a kind and a name, or else the one given.
abbrev pub last_of : String → String → List Listener → Option Listener → Option Listener
last_of kind name [] found = found
last_of kind name (l ∷ ls) found =
    last_of kind name ls
      (if l.kind == kind then (if l.name == name then some l else found) else found)

pub find-index_from :
    (kind name : String) (ls : List Listener) (m : Index)
    → find kind name (index_from ls m) ≡ last_of kind name ls (find kind name m)
unfolding index_from
find-index_from kind name [] m = refl
find-index_from kind name (l ∷ ls) m =
    let at = or_empty (lookup l.kind m) in
    let step : find kind name (insert l.kind (insert l.name l at) m) ≡ (
        if l.kind == kind
        then (if l.name == name then some l else find kind name m)
        else find kind name m) =
      elim (Bool-cases (l.kind == kind)) [
        | inl same ↦
            let key : l.kind ≡ kind = (eq_iff l.kind kind).0 same in
            rw (lookup-insert l.kind kind (insert l.name l at) m, same)
              (lookup-insert l.name name l at ∙ rw (key) refl)
        | inr other ↦ rw (lookup-insert l.kind kind (insert l.name l at) m, other) refl
      ] in
    find-index_from kind name ls (insert l.kind (insert l.name l at) m)
    ∙ ap (last_of kind name ls) step
