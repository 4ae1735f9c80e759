-- ===== src/Event/Notified.antt =====
-- pkg/event/emitter.go and pkg/api/v1/testkube/model_event_extended.go: which listeners are notified.
use testkube.Base.{
  String, Bool, true, ◌==◌, ◌≡◌, refl, sym, eq_iff, inl, inr, ◌⊎◌, ◌↔◌, Option, some, Option-cases,
  Bool-cases, List, [], ◌∷◌, Map, Memᴰ, any, if◌then◌else◌,
}
use mathlib.Core.List.Memᴰ
use testkube.Event.Listeners.{Listener, Event, type_of, labels_of, selected, valid, notifies}

any-Mem_iff : (t : String) (ts : List String) → (any (λ u. u == t) ts ≡ true) ↔ Memᴰ t ts
any-Mem_iff t [] = (λ h. cc, λ p. elim p [ ])
any-Mem_iff t (u ∷ ts) = elim (Bool-cases (u == t)) [
  | inl same ↦ (λ h. Memᴰ.head (sym ((eq_iff u t).0 same)), λ p. rw same refl)
  | inr other ↦ (
    λ h. Memᴰ.tail ((any-Mem_iff t ts).0 (rw other at h)),
    λ p. elim (Memᴰ.cases_cons p) [
      | inl here ↦ let test = (eq_iff u t).1 (sym here) in cc
      | inr later ↦ rw other ((any-Mem_iff t ts).1 later)
    ],
  )
]

-- What a selector asks of the labels of an event: nothing where it is empty, or else that it can be
-- read and matches them.
abbrev pub IsSelected : (String → Option (Map String → Bool)) → String → Event → Type 0
IsSelected parse selector e =
    (selector ≡ "")
    ⊎ ((matches : Map String → Bool) × (parse selector ≡ some matches)
        × (matches (labels_of e) ≡ true))

selected_iff :
    (parse : String → Option (Map String → Bool)) (selector : String) (e : Event)
    → ((if selector == "" then true else selected (parse selector) e) ≡ true)
      ↔ IsSelected parse selector e
selected_iff parse selector e = elim (Bool-cases (selector == "")) [
  | inl empty ↦ (λ h. inl ((eq_iff selector "").0 empty), λ p. rw empty refl)
  | inr given ↦ (
    λ h.
        let fits = rw given at h in
        elim (Option-cases (parse selector)) [
          | inl bad ↦ let false_then = rw bad at fits in cc
          | inr (m, at) ↦ inr (m, at, rw at at fits)
        ],
    λ p. elim p [
      | inl empty ↦ let test = (eq_iff selector "").1 empty in cc
      | inr (m, at, fits) ↦ rw (given, at) fits
    ],
  )
]

-- A listener is notified of an event when its events have the type of the event, and its selector is
-- empty or can be read and matches the labels of the event's execution.
pub notifies_iff :
    (parse : String → Option (Map String → Bool)) (l : Listener) (e : Event)
    → (notifies parse l e ≡ true) ↔ (Memᴰ (type_of e) l.events × IsSelected parse l.selector e)
unfolding notifies valid
notifies_iff parse l e = elim (Bool-cases (any (λ t. t == type_of e) l.events)) [
  | inl wanted ↦ (
    λ h. (
      (any-Mem_iff (type_of e) l.events).0 wanted,
      (selected_iff parse l.selector e).0 (rw wanted at h),
    ),
    λ p. rw wanted ((selected_iff parse l.selector e).1 p.1),
  )
  | inr unwanted ↦ (
    λ h. let no = rw unwanted at h in cc,
    λ p. let yes = (any-Mem_iff (type_of e) l.events).1 p.0 in cc,
  )
]
