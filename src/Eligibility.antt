-- ===== src/Eligibility.antt =====
-- src/modules/eligibility: who may reserve a seat and who may publish a listing.
pub mod Policy
pub mod Gate
pub mod Tests
