-- ===== src/Listings/Access.antt =====
-- src/modules/listings/access.js: who may see the precise location of a listing.
use homeplate.Base.{
  ℕ, Bool, true, false, ◌&&◌, ◌||◌, Option, none, some, List, [], ◌∷◌, ◌==◌, leb, if◌then◌else◌,
}
use homeplate.Table.{Table, lookup, count}
use homeplate.Database.{Auth, Db, Booking, SafetyAlert}
use homeplate.Listings.Service.{is_active_booking}

-- A row of access_log under the purpose fr07_safety_alert; its resource is the listing. The log
-- of these stands in a list of its own, beside the tables.
pub record AccessEntry : Type 0 where
  pub actor_user_id : ℕ
  pub subject_user_id : ℕ
  pub resource : ℕ

-- WHERE listing_id = $1 AND guest_id = $2 AND status IN ('pending', 'in_progress')
abbrev pub is_live_guest : ℕ → ℕ → Booking → Bool
is_live_guest guest id b = b.listing_id == id && b.guest_id == guest && is_active_booking b.status

-- safety_alerts, by the booking that each is about, joined with the bookings of the listing.
abbrev pub is_booking_of : ℕ → Table Booking → ℕ → Bool
is_booking_of id bookings booking_id = elim (lookup booking_id bookings) [
  | none ↦ false
  | some b ↦ b.listing_id == id
]

abbrev pub has_alert : ℕ → Table Booking → Table SafetyAlert → Bool
has_alert id bookings [] = false
has_alert id bookings ((i, alert) ∷ t) =
    is_booking_of id bookings alert.booking_id || has_alert id bookings t

unfoldable pub can_view_precise_location :
    Option Auth → ℕ → Db → List AccessEntry → Bool × List AccessEntry
can_view_precise_location none id db log = (false, log)
can_view_precise_location (some v) id db log = elim (lookup id db.listings) [
  | none ↦ (false, log)
  | some l ↦
      let entry : AccessEntry = record {
        actor_user_id = v.user_id;
        subject_user_id = l.host_id;
        resource = id;
      } in
      if v.user_id == l.host_id
      then (true, log)
      else if leb 1 (count (is_live_guest v.user_id id) db.bookings)
      then (true, log)
      else if v.is_moderator && has_alert id db.bookings db.safety_alerts
      then (true, entry ∷ log)
      else (false, log)
]
