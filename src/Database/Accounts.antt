-- ===== src/Database/Accounts.antt =====
-- The tables of db/migrations for accounts: users, their profiles, tokens, media, requests about
-- their data and the two logs about them; and the session records that Redis holds.
use homeplate.Base.{ℕ, Bool, Option, List, String}
use homeplate.Database.Columns.{
  Email, PasswordHash, UserRole, MediaKind, NotificationStatus, RequestKind, RequestStatus,
}
use homeplate.Database.Exports.{Export}

pub record User : Type 0 where
  pub email : Email
  pub email_verified : Bool
  pub password_hash : PasswordHash
  pub full_name : Option String
  pub phone_enc : Option String
  pub emergency_contact_name_enc : Option String
  pub emergency_contact_phone_enc : Option String
  pub emergency_contact_email_enc : Option String
  pub can_reserve_seat : Bool
  pub can_publish_listing : Bool
  pub roles : List UserRole
  pub last_active_at : ℕ
  pub deleted_at : Option ℕ
  pub anonymized_at : Option ℕ
  pub created_at : ℕ

-- The rows stand under the ids of their users.
pub record HostProfile : Type 0 where
  pub bio : Option String
  pub host_agreement_accepted_at : Option ℕ

-- email_verification_tokens: the rows stand under the digests of the tokens.
pub record VerificationToken : Type 0 where
  pub user_id : ℕ
  pub expires_at : ℕ
  pub consumed_at : Option ℕ

pub record MediaObject : Type 0 where
  pub owner_user_id : ℕ
  pub entity_type : MediaKind
  pub entity_id : Option ℕ
  pub storage_key : String
  pub content_type : Option String
  pub size_bytes : Option ℕ
  pub deleted_at : Option ℕ
  pub created_at : ℕ

-- The columns of notification_attempts that are read here.
pub record NotificationAttempt : Type 0 where
  pub recipient_user_id : ℕ
  pub channel : String
  pub template : String
  pub status : NotificationStatus
  pub sent_at : Option ℕ
  pub created_at : ℕ

pub record AccessRow : Type 0 where
  pub subject_user_id : Option ℕ
  pub purpose : String
  pub resource : String
  pub created_at : ℕ

-- The counts that severAuthorReferences returns.
pub record Rewritten : Type 0 where
  pub reviews : ℕ
  pub messages : ℕ
  pub safety_alerts : ℕ
  pub review_targets : ℕ

-- data_requests.detail: the keys that the privacy service writes into it.
pub record Detail : Type 0 where
  pub requested_at : Option ℕ
  pub flagged_at : Option ℕ
  pub notice_sent_at : Option ℕ
  pub notice_attempt_id : Option ℕ
  pub erasure_scheduled_at : Option ℕ
  pub already_anonymized : Option Bool
  pub cancelled : Option String
  pub erased : Option Bool
  pub media_objects_deleted : Option ℕ
  pub rewritten : Option Rewritten
  pub listings_scrubbed : Option ℕ
  pub failed_reason : Option String
  pub export : Option Export
  pub generated_at : Option ℕ

pub record DataRequest : Type 0 where
  pub user_id : ℕ
  pub kind : RequestKind
  pub status : RequestStatus
  pub due_at : ℕ
  pub completed_at : Option ℕ
  pub detail : Detail
  pub created_at : ℕ

-- What JSON.parse makes of the record under a session's key.
pub data SessionRecord : Type 0 where
  corrupt : SessionRecord
  session : (user_id : ℕ) → (roles : List UserRole) → (created_at : ℕ) → SessionRecord

-- A session's key, the digest of its token, holds a record until it expires.
pub record Session : Type 0 where
  pub value : SessionRecord
  pub expires_at : ℕ
