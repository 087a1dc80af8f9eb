-- ===== src/Bookings/Reservation.antt =====
-- createBooking as a whole: when it succeeds, what it writes, and what it keeps.
use mathlib.Core.Path.{subst}
use homeplate.Base.{ℕ, ◌<◌, ◌≡◌, ◌≢◌, sym, ap, ◌∙◌, true, some, arith, inl, inr, ◌↔◌, Bool-cases}
use homeplate.Table.{Table, lookup, count}
use homeplate.Database.{
  Db, Env, Listing, ListingStatus, ModerationStatus, Job, ok, with_transaction_keeps,
  with_transaction_ok, with_transaction_inv, >>=_inv,
}
use homeplate.Outbox.Keys.{Extends}
use homeplate.Bookings.Deferred.{BookingJob}
use homeplate.Bookings.Repo.{is_bookable, count_pending_for_guest, select_listing, pending_of}
use homeplate.Bookings.Service.{
  BookingView, check_bookable, take_seat, create_booking_body, create_booking,
}
use homeplate.Bookings.Reserve.{reserved, booked, Announced, take_seat_ok, take_seat_full}
use homeplate.Bookings.Seats.{IsSound, reserved-IsSound}

-- The conditions of a reservation: room under the guest's cap, and an approved, active listing
-- of another user, ahead of both clocks, with a seat left.
pub record Allowed (env : Env) (cap guest listing_id : ℕ) (db : Db) (l : Listing) : Type 0 where
  pub under_cap : count (pending_of guest) db.bookings < cap
  pub listed : lookup listing_id db.listings ≡ some l
  pub others : l.host_id ≢ guest
  pub approved : l.moderation_status ≡ ModerationStatus.approved
  pub active : l.status ≡ ListingStatus.active
  pub ahead_node : env.date_now < l.scheduled_start
  pub ahead_db : env.now < l.scheduled_start
  pub seat_left : 0 < l.seats_remaining

bookable_of :
    (env : Env) (cap guest listing_id : ℕ) (db : Db) (l : Listing)
    → Allowed env cap guest listing_id db l
    → is_bookable env l ≡ true
bookable_of env cap guest listing_id db l a = ground arith

check_passes :
    (env : Env) (cap guest listing_id : ℕ) (db : Db) (l : Listing)
    → Allowed env cap guest listing_id db l
    → check_bookable env cap guest listing_id db ≡ (ok l, db)
unfolding check_bookable count_pending_for_guest select_listing
check_passes env cap guest listing_id db l a = ground arith

-- What the checks have established when they pass.
abbrev Checked : Env → ℕ → ℕ → ℕ → Db → Listing → Type 0
Checked env cap guest listing_id db l =
    (count (pending_of guest) db.bookings < cap)
    × (lookup listing_id db.listings ≡ some l)
    × (l.host_id ≢ guest)
    × (l.moderation_status ≡ ModerationStatus.approved)
    × (l.status ≡ ListingStatus.active)
    × (env.date_now < l.scheduled_start)

check_reads :
    (env : Env) (cap guest listing_id : ℕ) (db : Db) (t : Listing) (db' : Db)
    → check_bookable env cap guest listing_id db ≡ (ok t, db')
    → (db' ≡ db) × Checked env cap guest listing_id db t
unfolding check_bookable count_pending_for_guest select_listing
check_reads env cap guest listing_id db t db' e = ground arith

took_allowed :
    (env : Env) (cap guest listing_id : ℕ) (db : Db) (l : Listing) (view : BookingView) (db' : Db)
    → Checked env cap guest listing_id db l
    → take_seat env guest listing_id l db ≡ (ok view, db')
    → (l : Listing) × Allowed env cap guest listing_id db l
      × (take_seat env guest listing_id l db ≡ (ok view, db'))
took_allowed env cap guest listing_id db l view db' c took = elim (Bool-cases (is_bookable env l)) [
  | inl can ↦ (
    l,
    record {
      under_cap = c.0;
      listed = c.1;
      others = c.2;
      approved = c.3;
      active = c.4;
      ahead_node = c.5;
      ahead_db = ground arith;
      seat_left = ground arith;
    },
    took,
  )
  | inr no_seat ↦ cc (take_seat_full env guest listing_id l db c.1 no_seat)
]

body_allowed :
    (env : Env) (cap guest listing_id : ℕ) (db : Db) (view : BookingView) (db' : Db)
    → create_booking_body env cap guest listing_id db ≡ (ok view, db')
    → (l : Listing) × Allowed env cap guest listing_id db l
      × (take_seat env guest listing_id l db ≡ (ok view, db'))
body_allowed env cap guest listing_id db view db' e =
    let (t, mid, checked, took) =
      >>=_inv (check_bookable env cap guest listing_id) (take_seat env guest listing_id) e in
    let (same, c) = check_reads env cap guest listing_id db t mid checked in
    took_allowed env cap guest listing_id db t view db' c
      (subst (λ d. take_seat env guest listing_id t d ≡ (ok view, db')) same took)

-- A reservation succeeds exactly if the guest has fewer pending bookings than the cap, and the
-- listing is there, someone else's, approved, active, ahead of both clocks and with a seat left.
pub create_booking_iff :
    (env : Env) (cap guest listing_id : ℕ) (db : Db)
    → ((view : BookingView) × (db' : Db) × (create_booking env cap guest listing_id db
          ≡ (ok view, db')))
      ↔ ((l : Listing) × Allowed env cap guest listing_id db l)
unfolding create_booking
create_booking_iff env cap guest listing_id db = (
  (λ (view, db', e).
      let step = with_transaction_inv (create_booking_body env cap guest listing_id) e in
      let (l, a, _) = body_allowed env cap guest listing_id db view db' step in (l, a)),
  λ (l, a).
      let (jobs, next, eq, _, _, _) =
        take_seat_ok env guest listing_id l db a.listed
          (bookable_of env cap guest listing_id db l a) in
      (
        booked env guest listing_id l db l,
        reserved env guest listing_id db jobs next,
        with_transaction_ok (create_booking_body env cap guest listing_id)
            (ground (arith, check_passes env cap guest listing_id db l a, eq)),
      ),
)

-- A successful reservation writes exactly one pending booking under a fresh id and takes one
-- seat of the listing. No earlier job is lost, and the keys of the notifications of the guest and
-- the host and of the promotion have a job: the one that they had before, or a new one, to that
-- recipient and due at once, or for that booking and due at the start of the meal.
pub create_booking_writes :
    (env : Env) (cap guest listing_id : ℕ) (db : Db) (view : BookingView) (db' : Db)
    → create_booking env cap guest listing_id db ≡ (ok view, db')
    → (l : Listing) × (jobs : Table Job) × (next : ℕ) × (lookup listing_id db.listings ≡ some l)
      × (view ≡ booked env guest listing_id l db l)
      × (db' ≡ reserved env guest listing_id db jobs next)
      × Extends (BookingJob env) db.jobs jobs
      × Announced db.next_id guest l jobs
unfolding create_booking
create_booking_writes env cap guest listing_id db view db' e =
    let step = with_transaction_inv (create_booking_body env cap guest listing_id) e in
    let (l, a, took) = body_allowed env cap guest listing_id db view db' step in
    let (jobs, next, eq, le, keeps, told) =
      take_seat_ok env guest listing_id l db a.listed
        (bookable_of env cap guest listing_id db l a) in
    (l, jobs, next, a.listed, ground (arith, eq, took), ground (arith, eq, took), keeps, told)

-- From a sound state, a call of createBooking leaves a sound state, whether it succeeds or not: the
-- seats free and held of a listing stay within its capacity.
pub create_booking-IsSound :
    (env : Env) (cap guest listing_id : ℕ) (db : Db)
    → IsSound db
    → IsSound (create_booking env cap guest listing_id db).1
unfolding create_booking
create_booking-IsSound env cap guest listing_id db v =
    with_transaction_keeps IsSound (create_booking_body env cap guest listing_id) db v
      λ view db' step.
        let (l, a, took) = body_allowed env cap guest listing_id db view db' step in
        let bookable = bookable_of env cap guest listing_id db l a in
        let (jobs, next, eq, le, _, _) = take_seat_ok env guest listing_id l db a.listed bookable in
        subst IsSound (ap (λ r. r.1) (sym eq ∙ took))
          (reserved-IsSound env guest listing_id db jobs next v a.listed bookable le)
