-- ===== src/Reviews.antt =====
-- Reviews of completed bookings (src/modules/reviews).
pub mod Service
pub mod Creation
mod Tests
