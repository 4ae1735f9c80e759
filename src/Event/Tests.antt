-- ===== src/Event/Tests.antt =====
-- The theorems on listeners, at two webhooks of which one changes and one is new.
use testkube.Base.{
  String, ◌≡◌, refl, sym, ap, subst, Bool-cases, eq_iff, ◌==◌, if◌then◌else◌, All, All-Mem,
  lookup-Fresh, ◌∙◌, ◌↔◌, inl, inr, none, some, List, [], ◌∷◌, ◌++◌, Memᴰ, Map, lookup,
}
use mathlib.Core.List.Memᴰ
use testkube.Event.Listeners.{Listener, Event}
use testkube.Event.Emitter.{update_listeners}
use testkube.Event.Emitter.Index.{last_of}
use testkube.Event.Emitter.Subscriptions.{IsServed}
use testkube.Event.Emitter.Serves.{Serves, HasQueues, update_listeners-Serves}
use testkube.Event.MockBus.{mock_bus}

abbrev hook : String → Listener
hook uri = record {
  name = "default.hook";
  kind = "webhook";
  selector = "";
  events = "end-test-failed" ∷ [];
  metadata = ("uri", uri) ∷ [];
}

abbrev slack : Listener
slack = record {
  name = "slack";
  kind = "slack";
  selector = "";
  events = "start-test" ∷ [];
  metadata = [];
}

abbrev before : List Listener
before = hook "a" ∷ []

abbrev after : List Listener
after = hook "b" ∷ slack ∷ []

abbrev bus_before : Map Listener
bus_before = ("default.hook", hook "a") ∷ []

before-Serves : Serves mock_bus before bus_before
unfolding lookup
before-Serves = (
  λ l p. elim (Memᴰ.cases_cons p) [
    | inl e ↦ subst (λ l. IsServed l (lookup l.name bus_before)) (sym e) (hook "a", refl, λ k. refl)
    | inr bad ↦ elim bad [ ]
  ],
  λ q absent. elim (Bool-cases ("default.hook" == q)) [
    | inl same ↦ absurd (absent (hook "a") (Memᴰ.head refl) ((eq_iff "default.hook" q).0 same))
    | inr other ↦ lookup-Fresh q bus_before (other, tt)
  ],
)

-- In the two lists the name of a listener tells its kind.
abbrev kind_of : String → String
kind_of name = if name == "slack" then "slack" else "webhook"

kinds : All (λ (l : Listener). l.kind ≡ kind_of l.name) (before ++ after)
kinds = (refl, (refl, (refl, tt)))

all-HasQueues : HasQueues mock_bus (before ++ after)
all-HasQueues x l p q same =
    let KindOf : Listener → Type 0 = λ l. l.kind ≡ kind_of l.name in
    (All-Mem KindOf p kinds ∙ ap kind_of same ∙ sym (All-Mem KindOf q kinds), same)

update_listeners-Serves_example :
    ((l : Listener)
      → Memᴰ l (update_listeners mock_bus after (before, bus_before)).0
        ↔ (last_of l.kind l.name after none ≡ some l))
    × Serves mock_bus
        (update_listeners mock_bus after (before, bus_before)).0
        (update_listeners mock_bus after (before, bus_before)).1
update_listeners-Serves_example =
    update_listeners-Serves mock_bus before after bus_before all-HasQueues before-Serves

abbrev failed : Event
failed = record {
  resource = none;
  resource_id = "";
  type = some "end-test-failed";
  test_execution = some [];
  test_suite_execution = none;
}
