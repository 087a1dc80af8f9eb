-- ===== src/Outbox.antt =====
-- src/outbox/outbox.js and src/outbox/worker.js.
pub mod Enqueue
pub mod Keys
pub mod Worker
pub mod Attempts
pub mod Settling
mod Tests
