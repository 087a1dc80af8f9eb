-- ===== src/Moderation.antt =====
-- Moderation (src/modules/moderation): the scan of new contents, the queue of the human
-- moderators and their decisions.
pub mod Prefilter
pub mod Repo
pub mod Service
pub mod Decision
pub mod Writing
pub mod Filtering
pub mod Clearing
pub mod Scanning
pub mod Publication
pub mod Deciding
pub mod Queueing
pub mod Overtaking
pub mod Tests
