-- ===== src/Privacy/Copies.antt =====
-- src/modules/privacy/repo.js, collectExport: the copy of everything that is kept of a user; and
-- serializeUser of src/modules/users/repo.js. Rows of one instant stand in the order of the table.
use text.Mathlib.Text.{◌==◌ as str_eq}
use homeplate.Base.{
  ℕ, Bool, false, not, ◌||◌, Option, none, some, ◌==◌, map, leb, if◌then◌else◌, String, is_some,
  ◌&&◌,
}
use homeplate.Table.{Table, lookup, select, order_by}
use homeplate.Database.{
  Db, User, HostProfile, Listing, Booking, Review, Message, SafetyAlert, MediaObject, Decision,
  NotificationAttempt, DataRequest, AccessRow, ContentType, EmergencyContact, ProfileCopy,
  AccountCopy, ListingCopy, BookingCopy, ReviewCopy, MessageCopy, AlertCopy, MediaCopy,
  DecisionCopy, NotificationCopy, AccessCopy, Export,
}
use homeplate.Privacy.Requests.{serialize_request, get_user}
use homeplate.Privacy.Erasing.{is_user, is_author, is_sender, is_raiser, is_hosted_by}

-- decrypt of src/db/fieldCrypto.js, with none for a value that it throws on.
abbrev pub Opener : Type 0
Opener = String → Option String

abbrev pub decrypt_for_owner : Opener → Option String → Option String
decrypt_for_owner open_ none = none
decrypt_for_owner open_ (some value) = open_ value

-- A string as a condition: there, and not empty.
abbrev pub is_truthy : Option String → Bool
is_truthy none = false
is_truthy (some value) = not (str_eq value "")

abbrev pub emergency_contact_of : Opener → User → Option EmergencyContact
emergency_contact_of open_ u =
    if is_truthy u.emergency_contact_name_enc
      || is_truthy u.emergency_contact_phone_enc
      || is_truthy u.emergency_contact_email_enc
    then some (record {
      name = decrypt_for_owner open_ u.emergency_contact_name_enc;
      phone = decrypt_for_owner open_ u.emergency_contact_phone_enc;
      email = decrypt_for_owner open_ u.emergency_contact_email_enc;
    })
    else none

abbrev pub profile_of : Option HostProfile → Option ProfileCopy
profile_of none = none
profile_of (some p) =
    some (record { bio = p.bio; host_agreement_accepted_at = p.host_agreement_accepted_at })

unfoldable pub serialize_user : Opener → ℕ → User → Option HostProfile → AccountCopy
serialize_user open_ id u profile = record {
  id = id;
  email = u.email;
  email_verified = u.email_verified;
  full_name = u.full_name;
  phone = decrypt_for_owner open_ u.phone_enc;
  emergency_contact = emergency_contact_of open_ u;
  can_reserve_seat = u.can_reserve_seat;
  can_publish_listing = u.can_publish_listing;
  roles = u.roles;
  host_profile = profile_of profile;
  created_at = u.created_at;
}

-- SELECT … WHERE test ORDER BY created_at
abbrev pub by_creation : {A : Type 0} → (A → ℕ) → (A → Bool) → Table A → Table A
by_creation created test t = order_by (λ a b. leb (created a.1) (created b.1)) (select test t)

abbrev copy_listing : ℕ × Listing → ListingCopy
copy_listing (id, r) = record {
  id = id;
  title = r.title;
  description = r.description;
  ingredients = r.ingredients;
  allergens = r.allergens;
  cuisine = r.cuisine;
  scheduled_start = r.scheduled_start;
  duration_minutes = r.duration_minutes;
  line1 = r.address_line1;
  line2 = r.address_line2;
  city = r.city;
  region = r.region;
  postal_code = r.postal_code;
  country = r.country;
  lat = r.lat;
  lng = r.lng;
  area_label = r.area_label;
  seat_capacity = r.seat_capacity;
  seats_remaining = r.seats_remaining;
  moderation_status = r.moderation_status;
  status = r.status;
  created_at = r.created_at;
}

abbrev copy_booking : ℕ × Booking → BookingCopy
copy_booking (id, r) = record {
  id = id;
  listing_id = r.listing_id;
  status = r.status;
  host_confirmed_completion = r.host_confirmed_completion;
  guest_confirmed_completion = r.guest_confirmed_completion;
  cancelled_at = r.cancelled_at;
  created_at = r.created_at;
}

abbrev copy_review : ℕ × Review → ReviewCopy
copy_review (id, r) = record {
  id = id;
  booking_id = r.booking_id;
  rating = r.rating;
  body = r.body;
  moderation_status = r.moderation_status;
  created_at = r.created_at;
}

abbrev copy_message : ℕ × Message → MessageCopy
copy_message (id, r) = record {
  id = id;
  booking_id = r.booking_id;
  body = r.body;
  moderation_status = r.moderation_status;
  created_at = r.created_at;
}

abbrev copy_alert : ℕ × SafetyAlert → AlertCopy
copy_alert (id, r) = record {
  id = id;
  booking_id = r.booking_id;
  delivery_status = r.delivery_status;
  delivered_at = r.delivered_at;
  created_at = r.created_at;
}

abbrev copy_media : ℕ × MediaObject → MediaCopy
copy_media (id, r) = record {
  storage_key = r.storage_key;
  entity_type = r.entity_type;
  entity_id = r.entity_id;
  content_type = r.content_type;
  size_bytes = r.size_bytes;
  created_at = r.created_at;
}

abbrev copy_decision : ℕ × Decision → DecisionCopy
copy_decision (id, r) = record {
  id = id;
  content_type = r.content_type;
  content_id = r.content_id;
  category = r.category;
  outcome = r.outcome;
  decided_by = r.decided_by;
  created_at = r.created_at;
}

abbrev copy_attempt : ℕ × NotificationAttempt → NotificationCopy
copy_attempt (id, r) = record {
  id = id;
  channel = r.channel;
  template = r.template;
  status = r.status;
  sent_at = r.sent_at;
  created_at = r.created_at;
}

abbrev copy_access : ℕ × AccessRow → AccessCopy
copy_access (id, r) = record {
  purpose = r.purpose;
  resource = r.resource;
  created_at = r.created_at;
}

abbrev is_owned_media : ℕ → MediaObject → Bool
is_owned_media user m = m.owner_user_id == user && not (is_some m.deleted_at)

-- A content of the user, in one of the three tables.
abbrev pub is_content_of : ℕ → Db → ContentType → ℕ → Bool
is_content_of user db ContentType.review id = elim (lookup id db.reviews) [
  | none ↦ false
  | some r ↦ is_author user r
]
is_content_of user db ContentType.message id = elim (lookup id db.messages) [
  | none ↦ false
  | some m ↦ is_sender user m
]
is_content_of user db ContentType.listing id = elim (lookup id db.listings) [
  | none ↦ false
  | some l ↦ is_hosted_by user l
]
is_content_of user db ContentType.safety_alert id = false

abbrev pub copied_account : Opener → ℕ → User → Db → Export
copied_account open_ user u db = record {
  account = serialize_user open_ user u (lookup user db.host_profiles);
  listings =
      map copy_listing
        (by_creation (λ (l : Listing). l.created_at) (is_hosted_by user) db.listings);
  bookings = map copy_booking (
      by_creation (λ (b : Booking). b.created_at) (λ (b : Booking). b.guest_id == user)
        db.bookings);
  reviews =
      map copy_review (by_creation (λ (r : Review). r.created_at) (is_author user) db.reviews);
  messages =
      map copy_message (by_creation (λ (m : Message). m.created_at) (is_sender user) db.messages);
  safety_alerts =
      map copy_alert
        (by_creation (λ (a : SafetyAlert). a.created_at) (is_raiser user) db.safety_alerts);
  media =
      map copy_media
        (by_creation (λ (m : MediaObject). m.created_at) (is_owned_media user) db.media_objects);
  moderation_decisions = map copy_decision (
      by_creation (λ (d : Decision). d.created_at)
        (λ (d : Decision). is_content_of user db d.content_type d.content_id) db.decisions);
  notification_attempts = map copy_attempt (
      by_creation (λ (n : NotificationAttempt). n.created_at)
        (λ (n : NotificationAttempt). n.recipient_user_id == user) db.notification_attempts);
  data_requests = map serialize_request (
      by_creation (λ (r : DataRequest). r.created_at) (λ (r : DataRequest). r.user_id == user)
        db.data_requests);
  access_log = map copy_access (
      by_creation (λ (a : AccessRow). a.created_at)
        (λ (a : AccessRow). is_user user a.subject_user_id) db.access_log);
}

unfoldable pub collect_export : Opener → ℕ → Db → Option Export
collect_export open_ user db = elim (get_user user db) [
  | none ↦ none
  | some u ↦ some (copied_account open_ user u db)
]
