-- ===== src/Bookings/Cancellation.antt =====
-- cancelBooking as a whole: the transaction keeps the seats right, gives a seat back once, and
-- is repeatable.
use mathlib.Core.Path.{subst}
use homeplate.Base.{
  ℕ, ◌<◌, ◌≡◌, refl, sym, ap, ◌∙◌, false, none, some, [], ◌∷◌, arith, inl, inr, ◌⊎◌, Option-cases,
  Bool-cases,
}
use homeplate.Table.{Table}
use homeplate.Table.Laws.{lookup-modify}
use homeplate.Database.{
  Db, Env, Listing, Booking, BookingStatus, Job, Failure, ok, err, with_transaction_keeps,
  with_transaction_ok, with_transaction_inv, with_transaction_thrown,
}
use homeplate.Outbox.Keys.{Extends}
use homeplate.Bookings.Repo.{Role, is_cancellable, select_booking_with_listing}
use homeplate.Bookings.Service.{
  BookingView, serialize_booking, role_of, classify_cancel, cancel_event, cancel_pending,
  cancel_booking_body, cancel_booking, is_cancelled,
}
use homeplate.Bookings.Deferred.{BookingJob, Notified}
use homeplate.Bookings.Seats.{called_off, IsSound, released, freed}
use homeplate.Bookings.Cancel.{
  Finds, select-Finds, Finds-select, cancel_pending_ok, cancel_pending_refused,
  cancel_pending-IsSound,
}

-- How a cancellation can succeed: a repeat that writes nothing, or the transition.
abbrev Succeeds : Env → ℕ → ℕ → Db → BookingView → Db → Type 0
Succeeds env user id db view db' =
    (b : Booking) × (l : Listing) × (role : Role) × Finds id db b l
    × (role_of user b l ≡ some role)
    × (((b.status ≡ BookingStatus.cancelled)
          × (db' ≡ db)
          × (view ≡ serialize_booking id b l (some role)))
        ⊎ (cancel_pending env id b l role db ≡ (ok view, db')))

body-Succeeds :
    (env : Env) (user id : ℕ) (db : Db) (view : BookingView) (db' : Db)
    → cancel_booking_body env user id db ≡ (ok view, db')
    → Succeeds env user id db view db'
unfolding cancel_booking_body
body-Succeeds env user id db view db' e = elim (Option-cases (select_booking_with_listing id db)) [
  | inl missing ↦ absurd (ground arith)
  | inr ((b, l), found) ↦ elim (Option-cases (role_of user b l)) [
    | inl stranger ↦ absurd (ground arith)
    | inr (role, mine) ↦ (b, l, role, select-Finds id db found, mine, ground (arith, found, mine))
  ]
]

-- From a sound state, a call of cancelBooking leaves a sound state, whether it succeeds or not.
pub cancel_booking-IsSound :
    (env : Env) (user id : ℕ) (db : Db) → IsSound db → IsSound (cancel_booking env user id db).1
unfolding cancel_booking
cancel_booking-IsSound env user id db v =
    with_transaction_keeps IsSound (cancel_booking_body env user id) db v λ view db' e.
      let (b, l, role, found, mine, how) = body-Succeeds env user id db view db' e in
      elim how [
        | inl (_, same, _) ↦ subst IsSound (sym same) v
        | inr step ↦ cancel_pending-IsSound env id db role view db' v found step
      ]

-- From a sound state, the guest or the host of a pending booking cancels it before the start: the
-- row says so, the listing has one seat more, no job is lost, and no other listing or booking
-- changes. The key of either party's notification has a job: the one that it had before, or a new
-- one to that party, due at once.
pub cancel_booking_releases :
    (env : Env) (user id : ℕ) (db : Db) (b : Booking) (l : Listing) (role : Role)
    → IsSound db
    → Finds id db b l
    → role_of user b l ≡ some role
    → b.status ≡ BookingStatus.pending
    → env.now < l.scheduled_start
    → (jobs : Table Job) × (next : ℕ) × (cancel_booking env user id db ≡ (
      ok (serialize_booking id (called_off env.now b) (freed l) (some role)),
      record (released env.now id b.listing_id db) { jobs = jobs; next_id = next },
    ))
      × Extends (BookingJob env) db.jobs jobs
      × Notified id (cancel_event role) (b.guest_id ∷ l.host_id ∷ []) jobs
unfolding cancel_booking cancel_booking_body
cancel_booking_releases env user id db b l role v found mine p early =
    let (jobs, next, eq, le, keeps, told) = cancel_pending_ok env id db role v found p early in
    (
      jobs,
      next,
      with_transaction_ok (cancel_booking_body env user id)
          (ground (arith, Finds-select id db found, eq)),
      keeps,
      told,
    )

-- The guards of the transition, read off its WHERE clause.
cancellable_cases :
    (env : Env) (id : ℕ) (db : Db) (b : Booking) (l : Listing)
    → Finds id db b l
    → ((b.status ≡ BookingStatus.pending) × (env.now < l.scheduled_start))
      ⊎ (is_cancellable env db.listings b ≡ false)
cancellable_cases env id db b l found = elim (Bool-cases (is_cancellable env db.listings b)) [
  | inl can ↦ inl (ground arith, ground arith)
  | inr no_match ↦ inr no_match
]

-- Why a cancellation was refused.
abbrev pub CancelRefused : Env → ℕ → ℕ → Db → Failure → Type 0
CancelRefused env user id db x =
    ((select_booking_with_listing id db ≡ none) × (x ≡ Failure.booking_not_found))
    ⊎ ((b : Booking) × (l : Listing) × Finds id db b l
        × (((role_of user b l ≡ none) × (x ≡ Failure.not_participant))
            ⊎ ((is_cancellable env db.listings b ≡ false)
                × (is_cancelled b.status ≡ false)
                × (x ≡ classify_cancel env l))))

body_refused :
    (env : Env) (user id : ℕ) (db : Db) (x : Failure) (db' : Db)
    → IsSound db
    → cancel_booking_body env user id db ≡ (err x, db')
    → CancelRefused env user id db x
unfolding cancel_booking_body
body_refused env user id db x db' v e = elim (Option-cases (select_booking_with_listing id db)) [
  | inl missing ↦ inl (missing, ground arith)
  | inr ((b, l), found) ↦ elim (Option-cases (role_of user b l)) [
    | inl stranger ↦
        inr (b, l, select-Finds id db found, inl (stranger, ground (arith, found, stranger)))
    | inr (role, mine) ↦ elim (cancellable_cases env id db b l (select-Finds id db found)) [
      | inl (p, early) ↦
          let (jobs, next, eq, _, _, _) =
            cancel_pending_ok env id db role v (select-Finds id db found) p early in
          absurd (ground (arith, found, mine, p, eq))
      | inr no_match ↦
          let refused = cancel_pending_refused env id db role (select-Finds id db found) no_match in
          inr (
            b,
            l,
            select-Finds id db found,
            inr (
              no_match,
              ground (arith, found, mine, refused),
              ground (arith, found, mine, refused),
            ),
          )
    ]
  ]
]

-- From a sound state, every refusal leaves the database as it was. The booking is missing, or the
-- caller has no part in it, or it is not cancelled and the UPDATE matched no row: then the answer
-- is CANCEL_TOO_LATE if the meal has started by Node's clock, else BOOKING_NOT_CANCELLABLE.
pub cancel_booking_refusals :
    (env : Env) (user id : ℕ) (db : Db) (x : Failure) (db' : Db)
    → IsSound db
    → cancel_booking env user id db ≡ (err x, db')
    → (db' ≡ db) × CancelRefused env user id db x
unfolding cancel_booking
cancel_booking_refusals env user id db x db' v e =
    let (before, inner, eq) = with_transaction_thrown (cancel_booking_body env user id) e in
    (before, body_refused env user id db x inner v eq)

-- A cancelled booking is answered from its row.
cancelled_answer :
    (env : Env) (user id : ℕ) (db : Db) (b : Booking) (l : Listing) (role : Role)
    → Finds id db b l
    → role_of user b l ≡ some role
    → b.status ≡ BookingStatus.cancelled
    → cancel_booking env user id db ≡ (ok (serialize_booking id b l (some role)), db)
unfolding cancel_booking cancel_booking_body
cancelled_answer env user id db b l role found mine c =
    with_transaction_ok (cancel_booking_body env user id) (ground (arith, Finds-select id db found))

Finds-released :
    (now id : ℕ) (db : Db) (b : Booking) (l : Listing)
    → Finds id db b l
    → Finds id (released now id b.listing_id db) (called_off now b) (freed l)
Finds-released now id db b l found = (
  ground (arith, lookup-modify id id (called_off now) db.bookings),
  ground (arith, lookup-modify b.listing_id b.listing_id freed db.listings),
)

abbrev Answers : Env → ℕ → ℕ → Db → Type 0
Answers env user id db =
    (again : BookingView) × (cancel_booking env user id db ≡ (ok again, db))
    × (again.status ≡ BookingStatus.cancelled)

repeat_step :
    (env later : Env) (user id : ℕ) (db : Db) (view : BookingView) (db' : Db) (b : Booking)
    (l : Listing) (role : Role)
    → IsSound db
    → Finds id db b l
    → role_of user b l ≡ some role
    → cancel_pending env id b l role db ≡ (ok view, db')
    → Answers later user id db'
repeat_step env later user id db view db' b l role v found mine moved =
    elim (cancellable_cases env id db b l found) [
      | inl (p, early) ↦
          let (jobs, next, eq, _, _, _) = cancel_pending_ok env id db role v found p early in
          subst (Answers later user id) (ap (λ r. r.1) (sym eq ∙ moved)) (
            serialize_booking id (called_off env.now b) (freed l) (some role),
            cancelled_answer later user id _ (called_off env.now b) (freed l) role
                (Finds-released env.now id db b l found) mine refl,
            refl,
          )
      | inr no_match ↦ cc (cancel_pending_refused env id db role found no_match)
    ]

-- After a cancellation that succeeded from a sound state, the same user's repeat, by any other
-- clock, succeeds and changes nothing: no seat is given back twice and nobody is told again.
pub cancel_booking_repeat :
    (env later : Env) (user id : ℕ) (db : Db) (view : BookingView) (db' : Db)
    → IsSound db
    → cancel_booking env user id db ≡ (ok view, db')
    → (again : BookingView) × (cancel_booking later user id db' ≡ (ok again, db'))
      × (again.status ≡ BookingStatus.cancelled)
unfolding cancel_booking
cancel_booking_repeat env later user id db view db' v e =
    let step = with_transaction_inv (cancel_booking_body env user id) e in
    let (b, l, role, found, mine, how) = body-Succeeds env user id db view db' step in
    elim how [
      | inl (c, same, _) ↦ subst (Answers later user id) (sym same) (
        serialize_booking id b l (some role),
        cancelled_answer later user id db b l role found mine c,
        c,
      )
      | inr moved ↦ repeat_step env later user id db view db' b l role v found mine moved
    ]
