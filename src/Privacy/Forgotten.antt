-- ===== src/Privacy/Forgotten.antt =====
-- What it means that a user is forgotten, column by column.
use homeplate.Base.{ℕ, ◌≡◌, ◌≢◌, true, false, none, some, [], is_some}
use homeplate.Table.{lookup}
use homeplate.Database.{
  Db, User, Email, PasswordHash, Listing, ListingStatus, HostProfile, DataRequest, RequestKind,
  Review, Message, SafetyAlert, VerificationToken,
}

-- Every column of the row for personal data is empty, or holds its sentinel.
pub record IsBlank (user : ℕ) (u : User) : Type 0 where
  pub email : u.email ≡ Email.erased user
  pub email_verified : u.email_verified ≡ false
  pub password_hash : u.password_hash ≡ PasswordHash.erased
  pub full_name : u.full_name ≡ none
  pub phone_enc : u.phone_enc ≡ none
  pub emergency_contact_name_enc : u.emergency_contact_name_enc ≡ none
  pub emergency_contact_phone_enc : u.emergency_contact_phone_enc ≡ none
  pub emergency_contact_email_enc : u.emergency_contact_email_enc ≡ none
  pub can_reserve_seat : u.can_reserve_seat ≡ false
  pub can_publish_listing : u.can_publish_listing ≡ false
  pub deleted : is_some u.deleted_at ≡ true
  pub anonymized : is_some u.anonymized_at ≡ true

-- No column tells what was offered, or where.
pub record IsScrubbed (l : Listing) : Type 0 where
  pub title : l.title ≡ "Listing removed"
  pub description : l.description ≡ "Content removed: the host account was deleted (NFR-12)."
  pub ingredients : l.ingredients ≡ []
  pub allergens : l.allergens ≡ []
  pub cuisine : l.cuisine ≡ none
  pub address_line1 : l.address_line1 ≡ none
  pub address_line2 : l.address_line2 ≡ none
  pub city : l.city ≡ none
  pub region : l.region ≡ none
  pub postal_code : l.postal_code ≡ none
  pub lat : l.lat ≡ none
  pub lng : l.lng ≡ none
  pub coarse_lat : l.coarse_lat ≡ none
  pub coarse_lng : l.coarse_lng ≡ none
  pub area_label : l.area_label ≡ none
  pub status : l.status ≡ ListingStatus.cancelled

-- No row says who the user was, and what the user wrote stands under no name.
pub record IsForgotten (user : ℕ) (db : Db) : Type 0 where
  pub account : (u : User) → lookup user db.users ≡ some u → IsBlank user u
  pub authored : (k : ℕ) (r : Review) → lookup k db.reviews ≡ some r → r.author_id ≢ some user
  pub targeted : (k : ℕ) (r : Review) → lookup k db.reviews ≡ some r → r.target_user_id ≢ some user
  pub sent : (k : ℕ) (m : Message) → lookup k db.messages ≡ some m → m.sender_id ≢ some user
  pub raised :
      (k : ℕ) (a : SafetyAlert) → lookup k db.safety_alerts ≡ some a → a.raised_by ≢ some user
  pub hosted :
      (k : ℕ) (l : Listing) → lookup k db.listings ≡ some l → l.host_id ≡ user → IsScrubbed l
  pub profile : (p : HostProfile) → lookup user db.host_profiles ≡ some p → p.bio ≡ none
  pub tokens :
      (k : ℕ) (t : VerificationToken) → lookup k db.verification_tokens ≡ some t → t.user_id ≢ user
  -- no copy of the data is kept with a request for one
  pub copies :
      (k : ℕ) (r : DataRequest)
      → lookup k db.data_requests ≡ some r
      → r.user_id ≡ user
      → r.kind ≡ RequestKind.export
      → r.detail.export ≡ none
