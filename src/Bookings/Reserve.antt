-- ===== src/Bookings/Reserve.antt =====
-- createBooking in one equation: what a reservation writes when the seat can be taken.
use homeplate.Base.{ℕ, suc, ◌+◌, ◌-◌, ◌≤◌, ◌≡◌, true, false, none, some, [], ◌∷◌, arith}
use homeplate.Table.{Table, lookup, modify}
use homeplate.Database.{
  BookingStatus, Db, Env, Listing, Booking, Job, DedupeKey, Event, Tx, Failure, ok, err, pure, ◌>>◌,
}
use homeplate.Outbox.Keys.{has_key, Extends, Extends-trans, Extends-KeepsKeys}
use homeplate.Bookings.Repo.{Role, is_bookable, decrement_seat, insert_booking}
use homeplate.Bookings.Lifecycle.{enqueue_booking_notifications, enqueue_promotion}
use homeplate.Bookings.Service.{BookingView, serialize_booking, take_seat}
use homeplate.Bookings.Deferred.{
  BookingJob, Notified, Notified-mono, notifications-Defers, promotion-Defers,
}

abbrev pub taken : Listing → Listing
taken l = record l { seats_remaining = l.seats_remaining - 1 }

-- The row of a reservation: the guest's, pending, confirmed by nobody.
abbrev pub pending_booking : Env → (listing guest : ℕ) → Booking
pending_booking env listing guest = record {
  listing_id = listing;
  guest_id = guest;
  status = BookingStatus.pending;
  host_confirmed_completion = false;
  guest_confirmed_completion = false;
  cancelled_at = none;
  completed_at = none;
  created_at = env.now;
}

-- The state that a reservation leaves, whatever it put into the outbox.
abbrev pub reserved : Env → ℕ → ℕ → Db → Table Job → ℕ → Db
reserved env guest listing_id db jobs next = record db {
  listings = modify listing_id taken db.listings;
  bookings = (db.next_id, pending_booking env listing_id guest) ∷ db.bookings;
  jobs = jobs;
  next_id = next;
}

-- A notification for the guest and the host, and the promotion at the start of the meal.
abbrev pub Announced : ℕ → ℕ → Listing → Table Job → Type 0
Announced booking guest l jobs =
    Notified booking Event.created (guest ∷ l.host_id ∷ []) jobs
    × (has_key (DedupeKey.promote booking l.scheduled_start) jobs ≡ true)

decrement_seat_ok :
    (env : Env) (id : ℕ) (db : Db) {l : Listing}
    → lookup id db.listings ≡ some l
    → is_bookable env l ≡ true
    → decrement_seat env id db
      ≡ (ok (some (taken l)), record db { listings = modify id taken db.listings })
unfolding decrement_seat
decrement_seat_ok env id db e h = ground arith

decrement_seat_full :
    (env : Env) (id : ℕ) (db : Db) {l : Listing}
    → lookup id db.listings ≡ some l
    → is_bookable env l ≡ false
    → decrement_seat env id db ≡ (ok none, db)
unfolding decrement_seat
decrement_seat_full env id db e h = ground arith

module _ (env : Env) (guest listing_id : ℕ) (target : Listing) (db : Db) where
  abbrev after_jobs : ℕ → Booking → Listing → Tx BookingView
  after_jobs id b l =
      enqueue_booking_notifications env id Event.created (guest ∷ l.host_id ∷ [])
      >> (enqueue_promotion env id l.scheduled_start
          >> pure (
              serialize_booking id b (record target { seats_remaining = l.seats_remaining })
                (some Role.guest)))

  abbrev pub booked : Listing → BookingView
  booked l =
      serialize_booking db.next_id (pending_booking env listing_id guest)
        (record target { seats_remaining = l.seats_remaining - 1 }) (some Role.guest)

  -- With a bookable listing the seat is taken, the booking is written and its jobs are queued.
  pub take_seat_ok :
      {l : Listing}
      → lookup listing_id db.listings ≡ some l
      → is_bookable env l ≡ true
      → (jobs : Table Job) × (next : ℕ) × (take_seat env guest listing_id target db
          ≡ (ok (booked l), reserved env guest listing_id db jobs next))
        × (db.next_id + 1 ≤ next)
        × Extends (BookingJob env) db.jobs jobs
        × Announced db.next_id guest l jobs
  unfolding take_seat insert_booking
  take_seat_ok {l} e h =
      let b = pending_booking env listing_id guest in
      let start = reserved env guest listing_id db db.jobs (suc db.next_id) in
      let (js, t, n, eq, le, keeps, told) =
        notifications-Defers env db.next_id Event.created (guest ∷ l.host_id ∷ []) start in
      let (j, t', n', eq', le', keeps', due) =
        promotion-Defers env db.next_id l.scheduled_start
          (record start { jobs = t; next_id = n }) in
      (
        t',
        n',
        ground (arith, decrement_seat_ok env listing_id db e h, eq, eq'),
        omega arith,
        Extends-trans keeps keeps',
        (
          Notified-mono _ Event.created (guest ∷ l.host_id ∷ []) t t' (Extends-KeepsKeys keeps')
              told,
          due,
        ),
      )

  pub take_seat_full :
      {l : Listing}
      → lookup listing_id db.listings ≡ some l
      → is_bookable env l ≡ false
      → take_seat env guest listing_id target db ≡ (err Failure.no_capacity, db)
  unfolding take_seat
  take_seat_full e h = ground (arith, decrement_seat_full env listing_id db e h)
