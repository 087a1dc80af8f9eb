-- ===== src/Safety.antt =====
-- Safety alerts (src/modules/safety and src/outbox/handlers/safetyAlert.js).
pub mod Repo
pub mod Service
pub mod Raising
pub mod Delivery
pub mod Marks
pub mod Handling
pub mod Untouched
pub mod Redelivery
pub mod Tests
