-- ===== src/Database/Columns.antt =====
-- The types of the columns of the account tables (db/migrations/0001_core_schema.sql).
use homeplate.Base.{ℕ, String}

-- users.email: an address, or 'erased:<id>'.
pub data Email : Type 0 where
  address : String → Email
  erased : ℕ → Email

-- users.password_hash: an Argon2id hash, or 'erased'.
pub data PasswordHash : Type 0 where
  argon : String → PasswordHash
  erased : PasswordHash

pub data MediaKind : Type 0 where
  listing review host_profile : MediaKind

pub data NotificationStatus : Type 0 where
  queued sent failed retrying no_channel : NotificationStatus

pub data UserRole : Type 0 where
  user moderator admin : UserRole

pub data RequestKind : Type 0 where
  erasure export inactivity_notice : RequestKind

pub data RequestStatus : Type 0 where
  pending processing completed failed : RequestStatus
