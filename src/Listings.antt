-- ===== src/Listings.antt =====
-- src/modules/listings: the MEHKO caps, and creating, changing and cancelling a listing.
pub mod Mehko
pub mod Service
pub mod Update
pub mod Caps
pub mod Creation
pub mod Closing
pub mod Rewrite
pub mod Change
pub mod Schedule
pub mod Access
pub mod Sight
pub mod Disclosure
mod Tests
mod AccessTests
