-- ===== src/Bookings.antt =====
-- src/modules/bookings: reservation, cancellation, completion and promotion.
pub mod Repo
pub mod Lifecycle
pub mod Service
pub mod Participants
pub mod Deferred
pub mod Reserve
pub mod Seats
pub mod Cancel
pub mod Cancellation
pub mod Reservation
pub mod Completion
pub mod Rescheduling
pub mod Promotion
pub mod Tests
