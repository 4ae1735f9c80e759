-- ===== src/Triggers/Handlers/Resources/Events.antt =====
-- pkg/triggers/watcher.go and event.go: the events of the callbacks, told apart from how they are made.
use testkube.Base.{ℕ, String, Bool, true, false, ◌≡◌, none, some, List, [], if◌then◌else◌}
use testkube.Triggers.Handlers.{
  Kind, pod, deployment, service, ingress, cluster_event, config_map, Object, Callback, added,
  updated, deleted, Contents, Names, Matched, as_kind,
}
use testkube.Triggers.Handlers.Resources.{in_past, deployment_causes, same_config}

abbrev pub has_conditions : Kind → Bool
has_conditions k = elim k [
  | ingress ↦ false
  | cluster_event ↦ false
  | config_map ↦ false
  | _ ↦ true
]

abbrev pub has_address : Kind → Bool
has_address k = elim k [ pod ↦ true | service ↦ true | _ ↦ false ]

module _ {S E : Type 0} (contents : Contents S E) (names : Names) (from : ℕ) (home : String) where
  -- The event of a type for an object of a kind.
  abbrev pub event_of : String → Kind → Object S → List String → Matched
  event_of event_type k o causes = record {
    event = record {
      resource = names.resource_of k;
      name = o.name;
      namespace = o.namespace;
      labels = o.labels;
      event_type = event_type;
      causes = causes;
    };
    conditions_getter = if has_conditions k then some k else none;
    address_getter = if has_address k then some k else none;
  }

  -- Whether an update of an object is taken for none.
  abbrev pub is_unchanged : Kind → Object S → Object S → Bool
  is_unchanged k o n = elim k [
    | pod ↦ true
    | cluster_event ↦ true
    | config_map ↦ same_config contents names from home o.content n.content
    | _ ↦ contents.same_spec o.content n.content
  ]

  abbrev pub causes_of : Kind → Object S → Object S → List String
  causes_of k o n = elim k [ deployment ↦ deployment_causes contents names from home o n | _ ↦ [] ]

  -- The events of the callbacks of a kind.
  abbrev pub Emits : {L : Type 0} → Kind → Callback S L → Matched → Type 0
  Emits k (added obj) m =
      (o : Object S) × (as_kind k obj ≡ some o)
      × ((in_past contents names from home o ≡ false) × (m ≡ event_of names.created k o []))
  Emits k (updated old new) m =
      (o : Object S) × (n : Object S) × (as_kind k old ≡ some o)
      × (as_kind k new ≡ some n)
      × ((is_unchanged k o n ≡ false) × (m ≡ event_of names.modified k n (causes_of k o n)))
  Emits k (deleted obj) m =
      (o : Object S) × (as_kind k obj ≡ some o)
      × ((k ≡ cluster_event) → ⊥)
      × (m ≡ event_of names.deleted k o [])
