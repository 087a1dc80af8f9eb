-- ===== src/Media.antt =====
-- src/modules/media: the objects in the object storage that users own.
pub mod Service
pub mod Sweeping
mod Tests
