-- ===== src/Bookings/Cancel.antt =====
-- cancelBooking: what a cancellation writes, that it keeps the seats right, and its repeats.
use homeplate.Base.{
  ℕ, ◌≤◌, ◌<◌, ◌≡◌, sym, ap, ◌∙◌, false, none, some, [], ◌∷◌, arith, inl, inr, Bool-cases,
}
use mathlib.Core.Path.{subst}
use homeplate.Table.{Table, lookup, modify}
use homeplate.Table.Laws.{lookup-modify}
use homeplate.Database.{Db, Env, Listing, Booking, BookingStatus, Job, ok, err}
use homeplate.Outbox.Keys.{Extends}
use homeplate.Bookings.Repo.{
  Role, cancel_at, is_cancellable, mark_cancelled_before_start, restore_seat,
  select_booking_with_listing,
}
use homeplate.Bookings.Service.{
  BookingView, serialize_booking, classify_cancel, cancel_event, cancel_pending,
}
use homeplate.Bookings.Deferred.{BookingJob, Notified, notifications-Defers}
use homeplate.Bookings.Seats.{
  called_off, IsSound, with_jobs-IsSound, released, freed, released-IsSound, held-cancelled,
}

abbrev pub Finds : ℕ → Db → Booking → Listing → Type 0
Finds id db b l = (lookup id db.bookings ≡ some b) × (lookup b.listing_id db.listings ≡ some l)

pub select-Finds :
    (id : ℕ) (db : Db) {b : Booking} {l : Listing}
    → select_booking_with_listing id db ≡ some (b, l)
    → Finds id db b l
unfolding select_booking_with_listing
select-Finds id db h = ground arith

pub Finds-select :
    (id : ℕ) (db : Db) {b : Booking} {l : Listing}
    → Finds id db b l
    → select_booking_with_listing id db ≡ some (b, l)
unfolding select_booking_with_listing
Finds-select id db h = ground arith

module _ (env : Env) (id : ℕ) (db : Db) {b : Booking} {l : Listing} where
  mark_ok :
      Finds id db b l
      → b.status ≡ BookingStatus.pending
      → env.now < l.scheduled_start
      → mark_cancelled_before_start env id db ≡ (
        ok (some (cancel_at env.now b)),
        record db { bookings = modify id (cancel_at env.now) db.bookings },
      )
  unfolding mark_cancelled_before_start
  mark_ok found p early = ground arith

  -- A pending booking of a meal that has not started is cancelled, and the CHECK on the seats
  -- cannot refuse it.
  pub cancel_pending_ok :
      (role : Role)
      → IsSound db
      → Finds id db b l
      → b.status ≡ BookingStatus.pending
      → env.now < l.scheduled_start
      → (jobs : Table Job) × (next : ℕ) × (cancel_pending env id b l role db ≡ (
        ok (serialize_booking id (called_off env.now b) (freed l) (some role)),
        record (released env.now id b.listing_id db) { jobs = jobs; next_id = next },
      ))
        × (db.next_id ≤ next)
        × Extends (BookingJob env) db.jobs jobs
        × Notified id (cancel_event role) (b.guest_id ∷ l.host_id ∷ []) jobs
  unfolding cancel_pending restore_seat
  cancel_pending_ok role v found p early =
      let (js, t, n, eq, le, keeps, told) =
        notifications-Defers env id (cancel_event role) (b.guest_id ∷ l.host_id ∷ [])
          (released env.now id b.listing_id db) in
      let held = held-cancelled env.now id b.listing_id db found.0 in
      (
        t,
        n,
        ground (
          arith,
          mark_ok found p early,
          held,
          v.seats b.listing_id l found.1,
          lookup-modify b.listing_id b.listing_id freed db.listings,
          eq,
        ),
        le,
        keeps,
        told,
      )

  mark_refused :
      Finds id db b l
      → is_cancellable env db.listings b ≡ false
      → mark_cancelled_before_start env id db ≡ (ok none, db)
  unfolding mark_cancelled_before_start
  mark_refused found no_match = ground arith

  -- Anything else is refused with the reason that the clocks and the status give.
  pub cancel_pending_refused :
      (role : Role)
      → Finds id db b l
      → is_cancellable env db.listings b ≡ false
      → cancel_pending env id b l role db ≡ (err (classify_cancel env l), db)
  unfolding cancel_pending
  cancel_pending_refused role found no_match = ground (arith, mark_refused found no_match)

  pub cancel_pending-IsSound :
      (role : Role) (view : BookingView) (db' : Db)
      → IsSound db
      → Finds id db b l
      → cancel_pending env id b l role db ≡ (ok view, db')
      → IsSound db'
  cancel_pending-IsSound role view db' v found e =
      elim (Bool-cases (is_cancellable env db.listings b)) [
        | inl can ↦
            let p : b.status ≡ BookingStatus.pending = ground arith in
            let early : env.now < l.scheduled_start = ground arith in
            let (jobs, next, eq, le, _, _) = cancel_pending_ok role v found p early in
            let sound =
              with_jobs-IsSound {db = released env.now id b.listing_id db} jobs next le
                (released-IsSound env.now id db v found.0 p) in
            subst IsSound (ap (λ r. r.1) (sym eq ∙ e)) sound
        | inr no_match ↦ cc (cancel_pending_refused role found no_match)
      ]
