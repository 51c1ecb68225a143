-- ===== src/Events.antt =====
-- packages/events/src: the event bus.
pub mod Bus
