-- ===== src/Bookings/Promotion.antt =====
-- promoteDueBooking as a whole: a promotion is never lost, and it keeps the seats right.
use mathlib.Core.Path.{subst}
use homeplate.Base.{
  ℕ, ◌≤◌, ◌<◌, ◌≡◌, sym, ap, ◌∙◌, ◌&&◌, Option, some, [], ◌∷◌, arith, inl, inr, ◌⊎◌, Option-cases,
  Bool-cases,
}
use homeplate.Table.{Table, lookup, modify}
use homeplate.Table.Laws.{count-modify}
use homeplate.Database.{
  Db, Env, Listing, ListingStatus, Booking, BookingStatus, Job, Event, ok, with_transaction_keeps,
  with_transaction_ok, with_transaction_inv,
}
use homeplate.Outbox.Keys.{Extends}
use homeplate.Bookings.Repo.{
  select_booking_with_listing, promote_pending, is_pending, is_active, in_progress_now,
}
use homeplate.Bookings.Lifecycle.{
  Promotion, promote_due_booking, promote_found, start_booking, reschedule_promotion,
}
use homeplate.Bookings.Deferred.{BookingJob, Notified, notifications-Defers}
use homeplate.Bookings.Seats.{
  IsSound, holds_seat, same_tables-IsSound, with_jobs-IsSound, modify_booking-IsSound,
}
use homeplate.Bookings.Cancel.{Finds, select-Finds, Finds-select}
use homeplate.Bookings.Rescheduling.{IsIssued, StillScheduled, reschedule_ok}

promote_row :
    (id : ℕ) (db : Db) {b : Booking}
    → lookup id db.bookings ≡ some b
    → b.status ≡ BookingStatus.pending
    → promote_pending id db ≡ (
      ok (some (record b { status = BookingStatus.in_progress })),
      record db { bookings = modify id in_progress_now db.bookings },
    )
unfolding promote_pending
promote_row id db found p = ground arith

-- What a promotion that starts the booking writes.
abbrev pub started : ℕ → Db → Table Job → ℕ → Db
started id db jobs next = record db {
  bookings = modify id in_progress_now db.bookings;
  jobs = jobs;
  next_id = next;
}

start_ok :
    (env : Env) (id guest host : ℕ) (db : Db) {b : Booking}
    → lookup id db.bookings ≡ some b
    → b.status ≡ BookingStatus.pending
    → (jobs : Table Job) × (next : ℕ) × (start_booking env id guest host db
        ≡ (ok Promotion.promoted, started id db jobs next))
      × (db.next_id ≤ next)
      × Extends (BookingJob env) db.jobs jobs
      × Notified id Event.started (guest ∷ host ∷ []) jobs
unfolding start_booking
start_ok env id guest host db found p =
    let (js, t, n, eq, le, keeps, told) =
      notifications-Defers env id Event.started (guest ∷ host ∷ [])
        (record db { bookings = modify id in_progress_now db.bookings }) in
    (t, n, ground (arith, promote_row id db found p, eq), le, keeps, told)

started-IsSound :
    (id : ℕ) (db : Db) (b : Booking) (jobs : Table Job) (next : ℕ)
    → IsSound db
    → lookup id db.bookings ≡ some b
    → b.status ≡ BookingStatus.pending
    → db.next_id ≤ next
    → IsSound (started id db jobs next)
started-IsSound id db b jobs next v found p le =
    with_jobs-IsSound {db = record db { bookings = modify id in_progress_now db.bookings }} jobs
      next le
      (modify_booking-IsSound id in_progress_now db v
        (λ k. ground (arith, count-modify (holds_seat k) id in_progress_now b db.bookings))
        (λ c ec done. cc))

-- At the start of an active listing's meal a pending booking becomes in_progress, and the guest
-- and the host are told.
pub promote_due_booking_starts :
    (env : Env) (id : ℕ) (delivering : Option ℕ) (db : Db) (b : Booking) (l : Listing)
    → Finds id db b l
    → b.status ≡ BookingStatus.pending
    → l.status ≡ ListingStatus.active
    → l.scheduled_start ≤ env.date_now
    → (jobs : Table Job) × (next : ℕ) × (promote_due_booking env id delivering db
        ≡ (ok Promotion.promoted, started id db jobs next))
      × Extends (BookingJob env) db.jobs jobs
      × Notified id Event.started (b.guest_id ∷ l.host_id ∷ []) jobs
unfolding promote_due_booking promote_found
promote_due_booking_starts env id delivering db b l found p active due =
    let (jobs, next, eq, _, keeps, told) = start_ok env id b.guest_id l.host_id db found.0 p in
    (
      jobs,
      next,
      with_transaction_ok (promote_found env id delivering)
          (ground (arith, Finds-select id db found, eq)),
      keeps,
      told,
    )

-- How the body of a promotion can return.
abbrev Outcome : Env → ℕ → Option ℕ → Db → Promotion → Db → Type 0
Outcome env id delivering db p db' =
    ((p ≡ Promotion.noop) × (db' ≡ db))
    ⊎ ((b : Booking) × (l : Listing) × Finds id db b l
        × (b.status ≡ BookingStatus.pending)
        × (l.status ≡ ListingStatus.active)
        × (((env.date_now < l.scheduled_start)
              × (reschedule_promotion env id l.scheduled_start delivering db ≡ (ok p, db')))
            ⊎ ((l.scheduled_start ≤ env.date_now)
                × (start_booking env id b.guest_id l.host_id db ≡ (ok p, db')))))

body_outcome :
    (env : Env) (id : ℕ) (delivering : Option ℕ) (db : Db) (p : Promotion) (db' : Db)
    → promote_found env id delivering db ≡ (ok p, db')
    → Outcome env id delivering db p db'
unfolding promote_found
body_outcome env id delivering db p db' e =
    elim (Option-cases (select_booking_with_listing id db)) [
      | inl missing ↦ inl (ground arith, ground arith)
      | inr ((b, l), found) ↦ elim (Bool-cases (is_pending b.status && is_active l.status)) [
        | inl live ↦ inr (
          b,
          l,
          select-Finds id db found,
          ground arith,
          ground arith,
          ground (arith, found, live),
        )
        | inr dead ↦ inl (ground (arith, found, dead), ground (arith, found, dead))
      ]
    ]

-- From a sound state, a delivery of a promotion, from no row or from one whose id was given out,
-- leaves a sound state.
pub promote_due_booking-IsSound :
    (env : Env) (id : ℕ) (delivering : Option ℕ) (db : Db)
    → IsIssued delivering db.next_id
    → IsSound db
    → IsSound (promote_due_booking env id delivering db).1
unfolding promote_due_booking
promote_due_booking-IsSound env id delivering db issued v =
    with_transaction_keeps IsSound (promote_found env id delivering) db v λ p db' e.
      elim (body_outcome env id delivering db p db' e) [
        | inl (_, same) ↦ subst IsSound (sym same) v
        | inr (b, l, found, pending, active, inl (ahead, moved)) ↦
            let (_, ls, bs, le, _) =
              reschedule_ok env id l.scheduled_start delivering db p db' issued moved in
            same_tables-IsSound db db' ls bs le v
        | inr (b, l, found, pending, active, inr (due, moved)) ↦
            let (jobs, next, eq, le, _, _) =
              start_ok env id b.guest_id l.host_id db found.0 pending in
            subst IsSound (ap (λ r. r.1) (sym eq ∙ moved))
              (started-IsSound id db b jobs next v found.0 pending le)
      ]

-- A promotion that comes due early is never lost: a delivery, from no row or from one whose id was
-- given out, that answers `rescheduled` leaves the bookings alone, and leaves a pending job under
-- a key of the promotion of that booking at the current start, in a row other than the one that is
-- being delivered: one that stood under the key before, or a new promotion of that booking that is
-- due at that start.
pub promote_due_booking_never_lost :
    (env : Env) (id : ℕ) (delivering : Option ℕ) (db db' : Db)
    → IsIssued delivering db.next_id
    → promote_due_booking env id delivering db ≡ (ok Promotion.rescheduled, db')
    → (b : Booking) × (l : Listing) × Finds id db b l
      × (env.date_now < l.scheduled_start)
      × (db'.bookings ≡ db.bookings)
      × StillScheduled id l.scheduled_start delivering db db'
unfolding promote_due_booking
promote_due_booking_never_lost env id delivering db db' issued e =
    let step = with_transaction_inv (promote_found env id delivering) e in
    elim (body_outcome env id delivering db Promotion.rescheduled db' step) [
      | inl (wrong, _) ↦ cc
      | inr (b, l, found, pending, active, inl (ahead, moved)) ↦
          let (_, _, bs, _, still) =
            reschedule_ok env id l.scheduled_start delivering db Promotion.rescheduled db' issued
              moved in
          (b, l, found, ahead, bs, still)
      | inr (b, l, found, pending, active, inr (due, moved)) ↦
          let (jobs, next, eq, _, _, _) = start_ok env id b.guest_id l.host_id db found.0 pending in
          absurd (ground (arith, eq, moved))
    ]
