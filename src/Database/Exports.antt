-- ===== src/Database/Exports.antt =====
-- The copies of a user's rows that collectExport of src/modules/privacy/repo.js makes, and
-- serializeUser of src/modules/users/repo.js.
use homeplate.Base.{ℕ, Bool, Option, List, String}
use homeplate.Database.Rows.{
  ListingStatus, ModerationStatus, BookingStatus, DeliveryStatus, ContentType, Category,
  DecisionOutcome, Actor, Degrees,
}
use homeplate.Database.Columns.{
  Email, UserRole, MediaKind, NotificationStatus, RequestKind, RequestStatus,
}

pub record EmergencyContact : Type 0 where
  pub name : Option String
  pub phone : Option String
  pub email : Option String

pub record ProfileCopy : Type 0 where
  pub bio : Option String
  pub host_agreement_accepted_at : Option ℕ

-- serializeUser
pub record AccountCopy : Type 0 where
  pub id : ℕ
  pub email : Email
  pub email_verified : Bool
  pub full_name : Option String
  pub phone : Option String
  pub emergency_contact : Option EmergencyContact
  pub can_reserve_seat : Bool
  pub can_publish_listing : Bool
  pub roles : List UserRole
  pub host_profile : Option ProfileCopy
  pub created_at : ℕ

pub record ListingCopy : Type 0 where
  pub id : ℕ
  pub title : String
  pub description : String
  pub ingredients : List String
  pub allergens : List String
  pub cuisine : Option String
  pub scheduled_start : ℕ
  pub duration_minutes : ℕ
  pub line1 : Option String
  pub line2 : Option String
  pub city : Option String
  pub region : Option String
  pub postal_code : Option String
  pub country : String
  pub lat : Option Degrees
  pub lng : Option Degrees
  pub area_label : Option String
  pub seat_capacity : ℕ
  pub seats_remaining : ℕ
  pub moderation_status : ModerationStatus
  pub status : ListingStatus
  pub created_at : ℕ

pub record BookingCopy : Type 0 where
  pub id : ℕ
  pub listing_id : ℕ
  pub status : BookingStatus
  pub host_confirmed_completion : Bool
  pub guest_confirmed_completion : Bool
  pub cancelled_at : Option ℕ
  pub created_at : ℕ

pub record ReviewCopy : Type 0 where
  pub id : ℕ
  pub booking_id : ℕ
  pub rating : ℕ
  pub body : Option String
  pub moderation_status : ModerationStatus
  pub created_at : ℕ

pub record MessageCopy : Type 0 where
  pub id : ℕ
  pub booking_id : ℕ
  pub body : String
  pub moderation_status : ModerationStatus
  pub created_at : ℕ

pub record AlertCopy : Type 0 where
  pub id : ℕ
  pub booking_id : ℕ
  pub delivery_status : DeliveryStatus
  pub delivered_at : Option ℕ
  pub created_at : ℕ

pub record MediaCopy : Type 0 where
  pub storage_key : String
  pub entity_type : MediaKind
  pub entity_id : Option ℕ
  pub content_type : Option String
  pub size_bytes : Option ℕ
  pub created_at : ℕ

pub record DecisionCopy : Type 0 where
  pub id : ℕ
  pub content_type : ContentType
  pub content_id : ℕ
  pub category : Category
  pub outcome : DecisionOutcome
  pub decided_by : Actor
  pub created_at : ℕ

pub record NotificationCopy : Type 0 where
  pub id : ℕ
  pub channel : String
  pub template : String
  pub status : NotificationStatus
  pub sent_at : Option ℕ
  pub created_at : ℕ

-- serializeRequest
pub record RequestCopy : Type 0 where
  pub id : ℕ
  pub kind : RequestKind
  pub status : RequestStatus
  pub due_at : ℕ
  pub completed_at : Option ℕ
  pub created_at : ℕ

pub record AccessCopy : Type 0 where
  pub purpose : String
  pub resource : String
  pub created_at : ℕ

-- What collectExport returns.
pub record Export : Type 0 where
  pub account : AccountCopy
  pub listings : List ListingCopy
  pub bookings : List BookingCopy
  pub reviews : List ReviewCopy
  pub messages : List MessageCopy
  pub safety_alerts : List AlertCopy
  pub media : List MediaCopy
  pub moderation_decisions : List DecisionCopy
  pub notification_attempts : List NotificationCopy
  pub data_requests : List RequestCopy
  pub access_log : List AccessCopy
