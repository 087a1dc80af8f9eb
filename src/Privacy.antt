-- ===== src/Privacy.antt =====
-- src/modules/privacy: the deletion and the erasure of accounts, and the copies of their data.
pub mod Requests
pub mod Erasing
pub mod Copies
pub mod Exporting
pub mod Exports
pub mod Survival
pub mod Sweep
pub mod Tests
pub mod Service
pub mod Deletion
pub mod Scheduling
pub mod Forgotten
pub mod Forgetting
pub mod Erasure
pub mod Outcome
pub mod Others
pub mod Notice
pub mod Inactivity
