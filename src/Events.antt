-- ===== src/Events.antt =====
-- core/event/event.cpp: the event emitter, its handlers and its queues.
pub mod Handlers
pub mod Queue
pub mod Drain
