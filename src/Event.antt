-- ===== src/Event.antt =====
-- pkg/event: events, the listeners that are notified of them, and the bus between them.
pub mod Listeners
pub mod Notified
pub mod Emitter
pub mod MockBus
mod Tests
