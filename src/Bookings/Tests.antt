-- ===== src/Bookings/Tests.antt =====
-- The bookings at concrete inputs.
use homeplate.Base.{◌≢◌, ℕ, ◌≡◌, ◌↔◌, ◌<◌, refl, arith, true, false, none, some, [], ◌∷◌}
use homeplate.Table.{Table, lookup}
use homeplate.Database.{
  empty_db, Db, Env, Listing, ListingStatus, ModerationStatus, Booking, BookingStatus, Event, Job,
  JobType, JobStatus, Payload, DedupeKey, Failure, ok, err, with_transaction,
}
use homeplate.Outbox.Enqueue.{enqueue, DedupeKey-discrete, Event-discrete}
use homeplate.Outbox.Keys.{Extends}
use homeplate.Bookings.Repo.{
  Role, select_listing, select_booking_with_listing, decrement_seat, insert_booking,
  mark_cancelled_before_start, restore_seat, count_pending_for_guest,
}
use homeplate.Bookings.Lifecycle.{
  Promotion, enqueue_booking_notifications, enqueue_promotion, promote_due_booking, promote_found,
  reschedule_promotion, secure_promotion_schedule, attempt_schedule, is_live_pending_job,
}
use homeplate.Bookings.Service.{
  BookingView, serialize_booking, check_bookable, take_seat, create_booking, cancel_pending,
  cancel_booking_body, cancel_booking, confirm_completion, completion,
}
use homeplate.Bookings.Seats.{called_off, IsSound, freed, released}
use homeplate.Bookings.Deferred.{BookingJob, Notified}
use homeplate.Bookings.Reserve.{booked, reserved, Announced}
use homeplate.Bookings.Reservation.{Allowed, create_booking_iff, create_booking_writes}
use homeplate.Bookings.Cancel.{Finds}
use homeplate.Bookings.Cancellation.{cancel_booking_releases}
use homeplate.Bookings.Completion.{
  signed, with_confirmation, CompletionTold, confirm_completion_records,
}
use homeplate.Bookings.Rescheduling.{StillScheduled}
use homeplate.Bookings.Promotion.{promote_due_booking_never_lost}

abbrev pub supper : Listing
supper = record {
  host_id = 1;
  title = "Supper";
  description = "Four courses";
  ingredients = [];
  allergens = "nuts" ∷ [];
  cuisine = none;
  scheduled_start = 1000;
  duration_minutes = 90;
  local_date = 3;
  address_line1 = none;
  address_line2 = none;
  city = none;
  region = none;
  postal_code = none;
  country = "US";
  lat = none;
  lng = none;
  coarse_lat = none;
  coarse_lng = none;
  area_label = none;
  seat_capacity = 2;
  seats_remaining = 1;
  price_per_seat_cents = 2500;
  moderation_status = ModerationStatus.approved;
  status = ListingStatus.active;
  created_at = 5;
}

abbrev pub seat : Booking
seat = record {
  listing_id = 10;
  guest_id = 2;
  status = BookingStatus.pending;
  host_confirmed_completion = false;
  guest_confirmed_completion = false;
  cancelled_at = none;
  completed_at = none;
  created_at = 6;
}

-- Listing 10 of host 1 with the booking 11 of guest 2.
abbrev pub one_seat : Db
one_seat = record empty_db {
  listings = (10, supper) ∷ [];
  bookings = (11, seat) ∷ [];
  next_id = 20;
}

abbrev pub at : ℕ → Env
at t = record { now = t; date_now = t; correlation_id = none; row_locked = λ i. false }

pub one_seat-IsSound : IsSound one_seat
one_seat-IsSound = record {
  seats = λ k l e. ground arith;
  listing_ids = λ k l e. ground arith;
  unheld = λ k g. ground arith;
  confirmed = λ k b e. ground arith;
}

allowed : Allowed (at 100) 3 5 10 one_seat supper
allowed = record {
  under_cap = ground arith;
  listed = refl;
  others = ground arith;
  approved = refl;
  active = refl;
  ahead_node = omega arith;
  ahead_db = omega arith;
  seat_left = omega arith;
}

create_booking_iff_example :
    ((view : BookingView) × (db' : Db) × (create_booking (at 100) 3 5 10 one_seat ≡ (ok view, db')))
    ↔ ((l : Listing) × Allowed (at 100) 3 5 10 one_seat l)
create_booking_iff_example = create_booking_iff (at 100) 3 5 10 one_seat

abbrev pub made : Db
made = (create_booking (at 100) 3 5 10 one_seat).1

made_eq :
    create_booking (at 100) 3 5 10 one_seat
    ≡ (ok (booked (at 100) 5 10 supper one_seat supper), made)
unfolding create_booking with_transaction check_bookable take_seat count_pending_for_guest
    select_listing decrement_seat insert_booking enqueue_booking_notifications enqueue_promotion
    enqueue DedupeKey-discrete Event-discrete native.Mathlib.Decide.ℕ_discrete
made_eq = refl

create_booking_writes_example :
    (l : Listing) × (jobs : Table Job) × (next : ℕ) × (lookup 10 one_seat.listings ≡ some l)
    × (booked (at 100) 5 10 supper one_seat supper ≡ booked (at 100) 5 10 l one_seat l)
    × (made ≡ reserved (at 100) 5 10 one_seat jobs next)
    × Extends (BookingJob (at 100)) one_seat.jobs jobs
    × Announced 20 5 l jobs
create_booking_writes_example =
    create_booking_writes (at 100) 3 5 10 one_seat (booked (at 100) 5 10 supper one_seat supper)
      made made_eq

cancel_booking_releases_example :
    (jobs : Table Job) × (next : ℕ) × (cancel_booking (at 100) 1 11 one_seat ≡ (
      ok (serialize_booking 11 (called_off 100 seat) (freed supper) (some Role.host)),
      record (released 100 11 10 one_seat) { jobs = jobs; next_id = next },
    ))
    × Extends (BookingJob (at 100)) [] jobs
    × Notified 11 Event.cancelled_by_host (2 ∷ 1 ∷ []) jobs
cancel_booking_releases_example =
    cancel_booking_releases (at 100) 1 11 one_seat seat supper Role.host one_seat-IsSound
      (refl, refl) refl refl (omega arith)

-- Guest 2 cancels as the meal starts.
too_late : cancel_booking (at 1000) 2 11 one_seat ≡ (err Failure.cancel_too_late, one_seat)
unfolding cancel_booking cancel_booking_body cancel_pending with_transaction
    select_booking_with_listing mark_cancelled_before_start
too_late = refl

abbrev undone : Db
undone = (cancel_booking (at 100) 2 11 one_seat).1

abbrev undone_view : BookingView
undone_view = serialize_booking 11 (called_off 100 seat) (freed supper) (some Role.guest)

undone_eq : cancel_booking (at 100) 2 11 one_seat ≡ (ok undone_view, undone)
unfolding cancel_booking cancel_booking_body cancel_pending with_transaction
    select_booking_with_listing mark_cancelled_before_start restore_seat
    enqueue_booking_notifications enqueue DedupeKey-discrete Event-discrete
    native.Mathlib.Decide.ℕ_discrete
undone_eq = refl

-- The meal has started, and the host has confirmed.
abbrev eaten : Booking
eaten = record seat { status = BookingStatus.in_progress; host_confirmed_completion = true }

abbrev at_table : Db
at_table = record one_seat { bookings = (11, eaten) ∷ [] }

confirm_completion_records_example :
    (jobs : Table Job) × (next : ℕ) × (confirm_completion (at 2000) 2 11 at_table ≡ (
      ok (completion 11 (signed (at 2000) Role.guest eaten) supper Role.guest),
      record (with_confirmation (at 2000) 11 Role.guest at_table) { jobs = jobs; next_id = next },
    ))
    × (lookup 11 (with_confirmation (at 2000) 11 Role.guest at_table).bookings
        ≡ some (signed (at 2000) Role.guest eaten))
    × ((k : ℕ)
        → k ≢ 11
        → lookup k (with_confirmation (at 2000) 11 Role.guest at_table).bookings
          ≡ lookup k at_table.bookings)
    × Extends (BookingJob (at 2000)) [] jobs
    × CompletionTold 11 eaten supper true [] jobs
confirm_completion_records_example =
    confirm_completion_records (at 2000) 2 11 at_table eaten supper Role.guest (refl, refl) refl
      refl refl

-- The job 12 comes due at 900 by a clock that is ahead; its key is the one for the start.
abbrev due_job : Job
due_job = record {
  type = JobType.booking_promote;
  payload = Payload.booking_ref 11;
  correlation_id = none;
  dedupe_key = some (DedupeKey.promote 11 1000);
  status = JobStatus.pending;
  attempt_count = 0;
  available_at = 1000;
  delivered_at = none;
  last_error = none;
  created_at = 6;
}

abbrev early : Db
early = record one_seat { jobs = (12, due_job) ∷ [] }

abbrev put_off : Db
put_off = (promote_due_booking (at 900) 11 (some 12) early).1

put_off_eq : promote_due_booking (at 900) 11 (some 12) early ≡ (ok Promotion.rescheduled, put_off)
unfolding promote_due_booking promote_found with_transaction select_booking_with_listing
    reschedule_promotion secure_promotion_schedule attempt_schedule is_live_pending_job enqueue
    DedupeKey-discrete Event-discrete native.Mathlib.Decide.ℕ_discrete
put_off_eq = refl

promote_due_booking_never_lost_example :
    (b : Booking) × (l : Listing) × Finds 11 early b l
    × (900 < l.scheduled_start)
    × (put_off.bookings ≡ early.bookings)
    × StillScheduled 11 l.scheduled_start (some 12) early put_off
promote_due_booking_never_lost_example =
    promote_due_booking_never_lost (at 900) 11 (some 12) early put_off (omega arith) put_off_eq
