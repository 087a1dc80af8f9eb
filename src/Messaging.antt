-- ===== src/Messaging.antt =====
-- The thread of a booking (src/modules/messaging).
pub mod Thread
pub mod Posting
pub mod Reading
mod Tests
