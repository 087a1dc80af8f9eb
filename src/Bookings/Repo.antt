-- ===== src/Bookings/Repo.antt =====
-- src/modules/bookings/repo.js: one function for each SQL statement.
use homeplate.Base.{
  ℕ, suc, ◌+◌, ◌-◌, Bool, true, false, not, ◌&&◌, ◌||◌, Option, none, some, ◌∷◌, ltb, leb, ◌==◌,
  if◌then◌else◌,
}
use homeplate.Table.{Table, lookup, update_where, count}
use homeplate.Database.{
  Db, Env, Listing, Booking, BookingStatus, ListingStatus, ModerationStatus, Tx, Failure, ok, err,
}

abbrev pub is_pending : BookingStatus → Bool
is_pending BookingStatus.pending = true
is_pending _ = false

abbrev pub is_in_progress : BookingStatus → Bool
is_in_progress BookingStatus.in_progress = true
is_in_progress _ = false

abbrev pub is_active : ListingStatus → Bool
is_active ListingStatus.active = true
is_active ListingStatus.cancelled = false

abbrev pub is_approved : ModerationStatus → Bool
is_approved ModerationStatus.approved = true
is_approved _ = false

abbrev pub pending_of : ℕ → Booking → Bool
pending_of guest b = b.guest_id == guest && is_pending b.status

-- countPendingForGuest
unfoldable pub count_pending_for_guest : ℕ → Db → ℕ
count_pending_for_guest guest db = count (pending_of guest) db.bookings

-- selectListing
unfoldable pub select_listing : ℕ → Db → Option Listing
select_listing id db = lookup id db.listings

-- The WHERE clause of decrementSeat, less its id.
abbrev pub is_bookable : Env → Listing → Bool
is_bookable env l =
    ltb 0 l.seats_remaining
    && is_active l.status
    && is_approved l.moderation_status
    && ltb env.now l.scheduled_start

unfoldable pub decrement_seat : Env → ℕ → Tx (Option Listing)
decrement_seat env id db =
    let (row, listings) =
      update_where id (is_bookable env) (λ l. record l { seats_remaining = l.seats_remaining - 1 })
        db.listings in
    (ok row, record db { listings = listings })

abbrev pub new_booking : Env → ℕ → ℕ → Booking
new_booking env listing_id guest_id = record {
  listing_id = listing_id;
  guest_id = guest_id;
  status = BookingStatus.pending;
  host_confirmed_completion = false;
  guest_confirmed_completion = false;
  cancelled_at = none;
  completed_at = none;
  created_at = env.now;
}

-- insertBooking: the new row's id and the row.
unfoldable pub insert_booking : Env → ℕ → ℕ → Tx (ℕ × Booking)
insert_booking env listing_id guest_id db =
    let b = new_booking env listing_id guest_id in
    (
      ok (db.next_id, b),
      record db { bookings = (db.next_id, b) ∷ db.bookings; next_id = suc db.next_id },
    )

-- selectBookingWithListing: the join of a booking with its listing.
unfoldable pub select_booking_with_listing : ℕ → Db → Option (Booking × Listing)
select_booking_with_listing id db = elim (lookup id db.bookings) [
  | none ↦ none
  | some b ↦ elim (lookup b.listing_id db.listings) [ none ↦ none | some l ↦ some (b, l) ]
]

-- The WHERE clause of markCancelledBeforeStart, less its id: the listing is joined.
abbrev pub is_cancellable : Env → Table Listing → Booking → Bool
is_cancellable env listings b = is_pending b.status && (elim (lookup b.listing_id listings) [
  | none ↦ false
  | some l ↦ ltb env.now l.scheduled_start
])

abbrev pub cancel_at : ℕ → Booking → Booking
cancel_at now b = record b { status = BookingStatus.cancelled; cancelled_at = some now }

unfoldable pub mark_cancelled_before_start : Env → ℕ → Tx (Option Booking)
mark_cancelled_before_start env id db =
    let (row, bookings) =
      update_where id (is_cancellable env db.listings) (cancel_at env.now) db.bookings in
    (ok row, record db { bookings = bookings })

-- The constraint listings_seats_within_capacity, on ℕ.
abbrev pub seats_within_capacity : Listing → Bool
seats_within_capacity l = leb l.seats_remaining l.seat_capacity

-- restoreSeat, with the CHECK that backs it.
unfoldable pub restore_seat : ℕ → Tx (Option Listing)
restore_seat id db =
    let (row, listings) =
      update_where id (λ _. true) (λ l. record l { seats_remaining = l.seats_remaining + 1 })
        db.listings in
    elim row [
      | none ↦ (ok none, db)
      | some l ↦
          if seats_within_capacity l
          then (ok (some l), record db { listings = listings })
          else (err Failure.check_violation, db)
    ]

pub data Role : Type 0 where
  guest host : Role

abbrev pub is_guest : Role → Bool
is_guest Role.guest = true
is_guest Role.host = false

-- The SET clause of applyCompletionConfirmation.
abbrev pub confirm : ℕ → Bool → Booking → Booking
confirm now guest_confirms b =
    let guest_flag = b.guest_confirmed_completion || guest_confirms in
    let host_flag = b.host_confirmed_completion || not guest_confirms in
    record b {
      guest_confirmed_completion = guest_flag;
      host_confirmed_completion = host_flag;
      status = if guest_flag && host_flag then BookingStatus.completed else b.status;
      completed_at = if guest_flag && host_flag then some now else b.completed_at;
    }

unfoldable pub apply_completion_confirmation : Env → ℕ → Role → Tx (Option Booking)
apply_completion_confirmation env id role db =
    let (row, bookings) =
      update_where id (λ b. is_in_progress b.status) (confirm env.now (is_guest role))
        db.bookings in
    (ok row, record db { bookings = bookings })

abbrev pub in_progress_now : Booking → Booking
in_progress_now b = record b { status = BookingStatus.in_progress }

unfoldable pub promote_pending : ℕ → Tx (Option Booking)
promote_pending id db =
    let (row, bookings) = update_where id (λ b. is_pending b.status) in_progress_now db.bookings in
    (ok row, record db { bookings = bookings })
