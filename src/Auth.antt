-- ===== src/Auth.antt =====
-- Signing in (src/modules/auth): the limits on login attempts and on verification mails.
pub mod Redis
pub mod RateLimit
pub mod Sessions
pub mod Revocation
pub mod SessionTests
pub mod Windows
pub mod Refinement
pub mod Traces
mod Tests
