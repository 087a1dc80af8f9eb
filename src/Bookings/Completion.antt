-- ===== src/Bookings/Completion.antt =====
-- confirmCompletion as a whole: two confirmations complete a booking, and repeats change nothing.
use homeplate.Table.Updates.{lookup-modify_hit}
use mathlib.Core.Path.{subst}
use homeplate.Base.{
  ◌≢◌, if◌then◌else◌, ℕ, ◌≤◌, ◌≡◌, refl, sym, ap, ◌∙◌, Bool, true, false, ◌||◌, some, [], ◌∷◌,
  arith, inl, inr, ◌⊎◌, Option-cases, Bool-cases,
}
use homeplate.Table.{Table, lookup, modify}
use homeplate.Table.Laws.{lookup-modify, count-modify}
use homeplate.Database.{
  Db, Env, Listing, Booking, BookingStatus, Job, Event, Failure, ok, err, with_transaction_keeps,
  with_transaction_ok, with_transaction_err,
}
use homeplate.Outbox.Keys.{Extends, Extends-refl}
use homeplate.Bookings.Repo.{
  Role, confirm, is_guest, apply_completion_confirmation, select_booking_with_listing,
}
use homeplate.Bookings.Service.{
  Completion, completion, role_of, own_flag, is_completed, apply_confirmation,
  confirm_completion_body, confirm_completion,
}
use homeplate.Bookings.Deferred.{BookingJob, Notified, notifications-Defers}
use homeplate.Bookings.Seats.{IsSound, holds_seat, with_jobs-IsSound, modify_booking-IsSound}
use homeplate.Bookings.Cancel.{Finds, select-Finds, Finds-select}

-- The row after one more confirmation.
abbrev pub confirmed_by : Env → Role → Booking → Booking
confirmed_by env role = confirm env.now (is_guest role)

abbrev pub with_confirmation : Env → ℕ → Role → Db → Db
with_confirmation env id role db = record db {
  bookings = modify id (confirmed_by env role) db.bookings;
}

-- Both parties are told when the booking is completed, and nobody before.
abbrev pub CompletionTold : ℕ → Booking → Listing → Bool → Table Job → Table Job → Type 0
CompletionTold id b l true before after =
    Notified id Event.completed (b.guest_id ∷ l.host_id ∷ []) after
CompletionTold id b l false before after = after ≡ before

apply_ok :
    (env : Env) (id : ℕ) (db : Db) (role : Role) {b : Booking}
    → lookup id db.bookings ≡ some b
    → b.status ≡ BookingStatus.in_progress
    → apply_completion_confirmation env id role db
      ≡ (ok (some (confirmed_by env role b)), with_confirmation env id role db)
unfolding apply_completion_confirmation
apply_ok env id db role found running = ground arith

module _ (env : Env) (id : ℕ) (db : Db) (b : Booking) (l : Listing) (role : Role) where
  pub apply_confirmation_ok :
      lookup id db.bookings ≡ some b
      → b.status ≡ BookingStatus.in_progress
      → (jobs : Table Job) × (next : ℕ) × (apply_confirmation env id b l role db ≡ (
        ok (completion id (confirmed_by env role b) l role),
        record (with_confirmation env id role db) { jobs = jobs; next_id = next },
      ))
        × (db.next_id ≤ next)
        × Extends (BookingJob env) db.jobs jobs
        × CompletionTold id b l (is_completed (confirmed_by env role b).status) db.jobs jobs
  unfolding apply_confirmation
  apply_confirmation_ok found running =
      elim (Bool-cases (is_completed (confirmed_by env role b).status)) [
        | inl done ↦
            let (js, t, n, eq, le, keeps, told) =
              notifications-Defers env id Event.completed (b.guest_id ∷ l.host_id ∷ [])
                (with_confirmation env id role db) in
            (
              t,
              n,
              ground (arith, apply_ok env id db role found running, done, eq),
              le,
              keeps,
              rw done told,
            )
        | inr waiting ↦ (
          db.jobs,
          db.next_id,
          ground (arith, apply_ok env id db role found running, waiting),
          omega arith,
          Extends-refl db.jobs,
          rw waiting refl,
        )
      ]

  with_confirmation-IsSound :
      IsSound db
      → lookup id db.bookings ≡ some b
      → b.status ≡ BookingStatus.in_progress
      → IsSound (with_confirmation env id role db)
  with_confirmation-IsSound v found running =
      modify_booking-IsSound id (confirmed_by env role) db v
        (λ k. ground (arith, count-modify (holds_seat k) id (confirmed_by env role) b db.bookings))
        (λ c ec done. ground arith)

completes :
    (env : Env) (role : Role) (b : Booking)
    → b.status ≡ BookingStatus.in_progress
    → own_flag role b ≡ false
    → is_completed (confirmed_by env role b).status
      ≡ (b.guest_confirmed_completion || b.host_confirmed_completion)
completes env Role.guest b running unset = ground arith
completes env Role.host b running unset = ground arith

-- How a confirmation can succeed: a no-op, or the caller's flag is set.
abbrev Succeeds : Env → ℕ → ℕ → Db → Completion → Db → Type 0
Succeeds env user id db c db' =
    (b : Booking) × (l : Listing) × (role : Role) × Finds id db b l
    × (role_of user b l ≡ some role)
    × ((db' ≡ db)
        ⊎ ((b.status ≡ BookingStatus.in_progress)
            × (apply_confirmation env id b l role db ≡ (ok c, db'))))

body-Succeeds :
    (env : Env) (user id : ℕ) (db : Db) (c : Completion) (db' : Db)
    → confirm_completion_body env user id db ≡ (ok c, db')
    → Succeeds env user id db c db'
unfolding confirm_completion_body
body-Succeeds env user id db c db' e = elim (Option-cases (select_booking_with_listing id db)) [
  | inl missing ↦ absurd (ground arith)
  | inr ((b, l), found) ↦ elim (Option-cases (role_of user b l)) [
    | inl stranger ↦ absurd (ground arith)
    | inr (role, mine) ↦ (b, l, role, select-Finds id db found, mine, ground (arith, found, mine))
  ]
]

-- From a sound state, a call of confirmCompletion leaves a sound state: a booking is completed
-- only if both parties have confirmed.
pub confirm_completion-IsSound :
    (env : Env) (user id : ℕ) (db : Db) → IsSound db → IsSound (confirm_completion env user id db).1
unfolding confirm_completion
confirm_completion-IsSound env user id db v =
    with_transaction_keeps IsSound (confirm_completion_body env user id) db v λ c db' e.
      let (b, l, role, found, mine, how) = body-Succeeds env user id db c db' e in
      elim how [
        | inl same ↦ subst IsSound (sym same) v
        | inr (running, moved) ↦
            let (jobs, next, eq, le, _, _) =
              apply_confirmation_ok env id db b l role found.0 running in
            subst IsSound (ap (λ r. r.1) (sym eq ∙ moved)) (
              with_jobs-IsSound {db = with_confirmation env id role db} jobs next le
                (with_confirmation-IsSound env id db b l role v found.0 running))
      ]

-- A running booking with one confirmation more: that party's flag is set, and the booking is
-- completed now exactly if the other party's was.
abbrev pub signed : Env → Role → Booking → Booking
signed env Role.guest b = record b {
  guest_confirmed_completion = true;
  status =
      if b.host_confirmed_completion then BookingStatus.completed else BookingStatus.in_progress;
  completed_at = if b.host_confirmed_completion then some env.now else b.completed_at;
}
signed env Role.host b = record b {
  host_confirmed_completion = true;
  status =
      if b.guest_confirmed_completion then BookingStatus.completed else BookingStatus.in_progress;
  completed_at = if b.guest_confirmed_completion then some env.now else b.completed_at;
}

confirmed_by-signed :
    (env : Env) (role : Role) (b : Booking)
    → b.status ≡ BookingStatus.in_progress
    → confirmed_by env role b ≡ signed env role b
confirmed_by-signed env Role.guest b running = ground arith
confirmed_by-signed env Role.host b running = ground arith

-- A participant of a running booking who has not confirmed yet confirms: the caller's flag is
-- set, the booking is completed now exactly if the other party had confirmed, and it still awaits
-- that party otherwise; no other booking changes and no job is lost. Each of the two parties has a
-- notification of a completion, the one that its key had or a new one to that party, and no job is
-- written before it.
pub confirm_completion_records :
    (env : Env) (user id : ℕ) (db : Db) (b : Booking) (l : Listing) (role : Role)
    → Finds id db b l
    → role_of user b l ≡ some role
    → b.status ≡ BookingStatus.in_progress
    → own_flag role b ≡ false
    → (jobs : Table Job) × (next : ℕ) × (confirm_completion env user id db ≡ (
      ok (completion id (signed env role b) l role),
      record (with_confirmation env id role db) { jobs = jobs; next_id = next },
    ))
      × (lookup id (with_confirmation env id role db).bookings ≡ some (signed env role b))
      × ((k : ℕ)
          → k ≢ id
          → lookup k (with_confirmation env id role db).bookings ≡ lookup k db.bookings)
      × Extends (BookingJob env) db.jobs jobs
      × CompletionTold id b l
          (b.guest_confirmed_completion || b.host_confirmed_completion)
          db.jobs
          jobs
unfolding confirm_completion confirm_completion_body
confirm_completion_records env user id db b l role found mine running unset =
    let (jobs, next, eq, _, keeps, told) =
      apply_confirmation_ok env id db b l role found.0 running in
    let same = confirmed_by-signed env role b running in
    let row = lookup-modify_hit id (confirmed_by env role) db.bookings found.0 in
    (
      jobs,
      next,
      with_transaction_ok (confirm_completion_body env user id)
            (ground (arith, Finds-select id db found, eq))
          ∙ ap
              (λ c. (
                ok (completion id c l role),
                record (with_confirmation env id role db) { jobs = jobs; next_id = next },
              ))
              same,
      row ∙ ap some same,
      (λ k other. ground (arith, lookup-modify k id (confirmed_by env role) db.bookings, other)),
      keeps,
      subst (λ done. CompletionTold id b l done db.jobs jobs) (completes env role b running unset)
          told,
    )

-- A participant's repeat, on a completed booking or while the other party is awaited, succeeds
-- and changes nothing.
pub confirm_completion_repeat :
    (env : Env) (user id : ℕ) (db : Db) (b : Booking) (l : Listing) (role : Role)
    → Finds id db b l
    → role_of user b l ≡ some role
    → (b.status ≡ BookingStatus.completed)
      ⊎ ((b.status ≡ BookingStatus.in_progress) × (own_flag role b ≡ true))
    → confirm_completion env user id db ≡ (ok (completion id b l role), db)
unfolding confirm_completion confirm_completion_body
confirm_completion_repeat env user id db b l role found mine again =
    with_transaction_ok (confirm_completion_body env user id)
      (ground (arith, Finds-select id db found))

-- A booking that is pending or cancelled cannot be confirmed, and stays as it is.
pub confirm_completion_early :
    (env : Env) (user id : ℕ) (db : Db) (b : Booking) (l : Listing) (role : Role)
    → Finds id db b l
    → role_of user b l ≡ some role
    → (b.status ≡ BookingStatus.pending) ⊎ (b.status ≡ BookingStatus.cancelled)
    → confirm_completion env user id db ≡ (err Failure.booking_not_in_progress, db)
unfolding confirm_completion confirm_completion_body
confirm_completion_early env user id db b l role found mine early =
    with_transaction_err (confirm_completion_body env user id) {db' = db}
      (ground (arith, Finds-select id db found))
