-- ===== src/Event/Listeners.antt =====
-- pkg/event/kind/common, pkg/event/loader.go and pkg/api/v1/testkube/model_event_extended.go: listeners,
-- how they are loaded, and which events they want.
use testkube.Base.{
  String, Bool, true, false, ◌==◌, ◌&&◌, not, Option, none, some, List, [], ◌∷◌, ◌++◌, Map, Result,
  ok, err, any, lookup, concat, if◌then◌else◌, ◌≡◌, sym, ap, ◌∙◌, subst, inl, inr, Memᴰ, &&-eq-true,
  Option-cases, lookup-Mem, eq_iff,
}

-- What the methods of a `Listener` return.
pub record Listener : Type 0 where
  pub name : String
  pub kind : String
  pub selector : String
  pub events : List String
  pub metadata : Map String

abbrev pub has_value : String → Option String → Bool
has_value v none = false
has_value v (some w) = v == w

-- One loop of `CompareListeners`.
unfoldable pub covers : Map String → Map String → Bool
unfolding lookup
covers [] n = true
covers ((k, v) ∷ m) n = has_value v (lookup k n) && covers m n

unfoldable pub compare_listeners : Listener → Listener → Bool
unfolding covers
compare_listeners a b = covers a.metadata b.metadata && covers b.metadata a.metadata

-- `Loader.Reconcile`: the listeners of all loaders that do not fail.
unfoldable pub reconcile : {X : Type 0} → List (Result X (List Listener)) → List Listener
reconcile [] = []
reconcile (err x ∷ loaders) = reconcile loaders
reconcile (ok ls ∷ loaders) = ls ++ reconcile loaders

-- The fields of an `Event` that the code below reads; of an execution it is the labels.
pub record Event : Type 0 where
  pub resource : Option String
  pub resource_id : String
  pub type : Option String
  pub test_execution : Option (Map String)
  pub test_suite_execution : Option (Map String)

abbrev pub type_of : Event → String
type_of e = elim e.type [ none ↦ "" | some t ↦ t ]

unfoldable pub topic : Event → String
unfolding concat
topic e = elim e.resource [
  | none ↦ "events.all"
  | some r ↦
      if e.resource_id == ""
      then concat ("events." ∷ r ∷ [])
      else concat ("events." ∷ r ∷ "." ∷ e.resource_id ∷ [])
]

abbrev pub labels_of : Event → Map String
labels_of e = elim e.test_suite_execution [
  | some labels ↦ labels
  | none ↦ elim e.test_execution [ none ↦ [] | some labels ↦ labels ]
]

-- What `Valid` makes of the selector.
abbrev pub selected : Option (Map String → Bool) → Event → Bool
selected none e = false
selected (some matches) e = matches (labels_of e)

-- `Event.Valid`; `parse` is `labels.Parse` of apimachinery.
unfoldable pub valid : (String → Option (Map String → Bool)) → Event → String → List String → Bool
valid parse e selector types =
    if not (any (λ t. t == type_of e) types)
    then false
    else if selector == ""
    then true
    else selected (parse selector) e

-- The handler of `notifyHandler`: whether the listener is notified of the event.
unfoldable pub notifies : (String → Option (Map String → Bool)) → Listener → Event → Bool
unfolding valid
notifies parse l e = valid parse e l.selector l.events

covers-Mem :
    (m n : Map String) {k v : String}
    → covers m n ≡ true
    → Memᴰ (k, v) m
    → has_value v (lookup k n) ≡ true
unfolding covers
covers-Mem [] n h p = elim p [ ]
covers-Mem ((j, w) ∷ m) n h (Memᴰ.head p) =
    subst (λ e. has_value e.1 (lookup e.0 n) ≡ true) (sym p)
      (&&-eq-true (has_value w (lookup j n)) (covers m n) h).0
covers-Mem ((j, w) ∷ m) n h (Memᴰ.tail p) =
    covers-Mem m n (&&-eq-true (has_value w (lookup j n)) (covers m n) h).1 p

-- Two maps of metadata have the same keys and values.
abbrev pub HasMetadata : Listener → Listener → Type 0
HasMetadata a b = (k : String) → lookup k a.metadata ≡ lookup k b.metadata

covers-lookup :
    (m n : Map String) (k : String) {v : String}
    → covers m n ≡ true
    → lookup k m ≡ some v
    → lookup k n ≡ some v
covers-lookup m n k {v} h e =
    let found = covers-Mem m n h (lookup-Mem k m e) in
    elim (Option-cases (lookup k n)) [
      | inl missing ↦ let bad = rw missing at found in cc
      | inr (w, at) ↦
          let test : (v == w) ≡ true = rw at at found in at ∙ ap some (sym ((eq_iff v w).0 test))
    ]

-- Listeners that compare equal have the same metadata.
pub compare_listeners-HasMetadata :
    (a b : Listener) → compare_listeners a b ≡ true → HasMetadata a b
unfolding compare_listeners
compare_listeners-HasMetadata a b h k =
    let both = &&-eq-true (covers a.metadata b.metadata) (covers b.metadata a.metadata) h in
    elim (Option-cases (lookup k a.metadata)) [
      | inr (v, e) ↦ e ∙ sym (covers-lookup a.metadata b.metadata k both.0 e)
      | inl none_here ↦ elim (Option-cases (lookup k b.metadata)) [
        | inl none_there ↦ none_here ∙ sym none_there
        | inr (w, e) ↦ covers-lookup b.metadata a.metadata k both.1 e ∙ sym e
      ]
    ]
