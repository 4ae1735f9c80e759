-- ===== src/Event/MockBus.antt =====
-- pkg/event/bus/mock_bus.go: a bus that keeps one subscription for each name.
use testkube.Base.{Map, lookup, insert, delete, lookup-insert, lookup-delete}
use testkube.Event.Listeners.{Listener}
use testkube.Event.Emitter.{Bus}

-- The state is `events`, the handler of a name in place of its channel.
abbrev pub mock_bus : Bus (Map Listener)
mock_bus = record {
  queue = λ name. name;
  subscribe = λ name l b. insert name l b;
  unsubscribe = λ name b. delete name b;
  handler = λ q b. lookup q b;
  handler-subscribe = λ q n l b free. lookup-insert n q l b;
  handler-unsubscribe = λ q n b. lookup-delete n q b;
}
