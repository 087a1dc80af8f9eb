-- ===== src/Database/Rows.antt =====
-- The tables of db/migrations that the modelled services read and write. Ids (uuid and bigint
-- columns) are numbers, instants are milliseconds since 1970, a calendar date is its number of
-- days since 1970-01-01. The updated_at columns, which a trigger sets, are left out.
use homeplate.Base.{ℕ, Bool, Option, List, String}

pub data ListingStatus : Type 0 where
  active cancelled : ListingStatus

pub data ModerationStatus : Type 0 where
  pending approved rejected : ModerationStatus

-- A coordinate column: a double that the services store and clear, and never compute with.
abbrev pub Degrees : Type 0
Degrees = ℕ

pub record Listing : Type 0 where
  pub host_id : ℕ
  pub title : String
  pub description : String
  pub ingredients : List String
  pub allergens : List String
  pub cuisine : Option String
  pub scheduled_start : ℕ
  pub duration_minutes : ℕ
  pub local_date : ℕ
  pub address_line1 : Option String
  pub address_line2 : Option String
  pub city : Option String
  pub region : Option String
  pub postal_code : Option String
  pub country : String
  pub lat : Option Degrees
  pub lng : Option Degrees
  pub coarse_lat : Option Degrees
  pub coarse_lng : Option Degrees
  pub area_label : Option String
  pub seat_capacity : ℕ
  pub seats_remaining : ℕ
  pub price_per_seat_cents : ℕ
  pub moderation_status : ModerationStatus
  pub status : ListingStatus
  pub created_at : ℕ

pub data BookingStatus : Type 0 where
  pending in_progress completed cancelled : BookingStatus

pub record Booking : Type 0 where
  pub listing_id : ℕ
  pub guest_id : ℕ
  pub status : BookingStatus
  pub host_confirmed_completion : Bool
  pub guest_confirmed_completion : Bool
  pub cancelled_at : Option ℕ
  pub completed_at : Option ℕ
  pub created_at : ℕ

-- lifecycle.EVENTS
pub data Event : Type 0 where
  created started cancelled_by_guest cancelled_by_host listing_cancelled completed : Event

-- The contents that moderation scans, and the alerts that share its queue.
pub data ContentType : Type 0 where
  listing review message safety_alert : ContentType

pub data JobType : Type 0 where
  notify_booking booking_promote listing_geocode moderation_scan safety_alert : JobType
  account_erasure data_export : JobType

pub data ErasureReason : Type 0 where
  deletion inactivity : ErasureReason

-- A job's payload: ids only.
pub data Payload : Type 0 where
  notification : (booking_id : ℕ) → Event → (recipient_user_id : ℕ) → Payload
  booking_ref : ℕ → Payload
  listing_ref : ℕ → Payload
  content_ref : ContentType → ℕ → Payload
  alert_ref : (alert_id : ℕ) → (booking_id : ℕ) → Payload
  erasure_ref : (user_id : ℕ) → (data_request_id : ℕ) → ErasureReason → Payload
  export_ref : (user_id : ℕ) → (data_request_id : ℕ) → Payload

-- The parts of the dedupe-key strings: `notify.booking:<booking>:<event>:<recipient>`, the same
-- with no recipient for a cancelled listing, `booking.promote:<booking>:<instant>`, and that
-- with `:r<row>` or `:rdirect` behind it; `safety.alert:<alert>`;
-- `account.erasure:deletion:<user>`, and `:notice:<request>` and `:final:<request>`;
-- `data.export:<request>`.
pub data DedupeKey : Type 0 where
  notify : ℕ → Event → ℕ → DedupeKey
  notify_listing_cancelled : ℕ → DedupeKey
  promote : ℕ → ℕ → DedupeKey
  promote_again : ℕ → ℕ → Option ℕ → DedupeKey
  alert : ℕ → DedupeKey
  erasure_deletion erasure_notice erasure_final export : ℕ → DedupeKey

pub data JobStatus : Type 0 where
  pending delivered dead : JobStatus

pub record Review : Type 0 where
  pub booking_id : ℕ
  pub author_id : Option ℕ
  pub target_user_id : Option ℕ
  pub rating : ℕ
  pub body : Option String
  pub moderation_status : ModerationStatus
  pub created_at : ℕ

pub record Message : Type 0 where
  pub booking_id : ℕ
  pub sender_id : Option ℕ
  pub body : String
  pub moderation_status : ModerationStatus
  pub created_at : ℕ

pub data DeliveryStatus : Type 0 where
  pending retrying delivered failed no_channel : DeliveryStatus

pub record SafetyAlert : Type 0 where
  pub booking_id : ℕ
  pub raised_by : Option ℕ
  pub delivery_status : DeliveryStatus
  pub delivered_at : Option ℕ
  pub created_at : ℕ

-- The taxonomy of prefilter.js, and the category of what was escalated with no classification.
pub data Category : Type 0 where
  offensive spam fraudulent benign unclassified : Category

pub data Actor : Type 0 where
  pre_filter llm human : Actor

pub data DecisionOutcome : Type 0 where
  approved rejected escalated : DecisionOutcome

-- A confidence between 0 and 1, by the bit pattern of its double: the order is the same. That the
-- column rounds it to three digits is left out.
abbrev pub Confidence : Type 0
Confidence = ℕ

-- The rules of the blocklist, by their ids.
pub data Rule : Type 0 where
  direct_threat dehumanizing link_farm bulk_promo offsite_wire advance_fee : Rule

pub data GateReason : Type 0 where
  not_ratified email_shaped phone_shaped : GateReason

-- moderation_decisions.note: a rule, a measured rate, the reasons of the gate, or a person's words.
pub data Note : Type 0 where
  rule : Rule → Note
  rate_limit : ℕ → Note
  data_use : List GateReason → Note
  written : String → Note

pub record Decision : Type 0 where
  pub content_type : ContentType
  pub content_id : ℕ
  pub category : Category
  pub confidence : Option Confidence
  pub outcome : DecisionOutcome
  pub decided_by : Actor
  pub decided_by_user_id : Option ℕ
  pub model_id : Option String
  pub note : Option Note
  pub created_at : ℕ

pub data QueueReason : Type 0 where
  low_confidence flagged rate_limited data_use_gate safety_alert : QueueReason

pub data QueueStatus : Type 0 where
  opened in_review resolved : QueueStatus

pub record QueueItem : Type 0 where
  pub content_type : ContentType
  pub content_id : ℕ
  pub reason : QueueReason
  pub status : QueueStatus
  pub assigned_to : Option ℕ
  pub decision_id : Option ℕ
  pub created_at : ℕ
  pub resolved_at : Option ℕ
