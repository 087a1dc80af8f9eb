-- ===== src/Bookings/Rescheduling.antt =====
-- securePromotionSchedule: a promotion that comes due early leaves another row for the booking.
use homeplate.Outbox.Keys.{IsDue}
use mathlib.Core.Path.{subst}
use homeplate.Base.{
  sym, ℕ, ◌≤◌, ◌<◌, ◌≡◌, refl, ◌∙◌, Bool, true, false, not, ◌&&◌, Option, none, some, arith, inl,
  inr, ◌⊎◌, Option-cases,
}
use homeplate.Table.{Table, lookup}
use homeplate.Database.{
  JobType, Payload, Db, Env, Job, DedupeKey, Failure, ok, >>=_inv, some_or_throw, pure, ◌>>=◌,
}
use homeplate.Outbox.Enqueue.{new_job, enqueue, find_by_key}
use homeplate.Bookings.Lifecycle.{
  Promotion, reschedule_promotion, secure_promotion_schedule, attempt_schedule, is_live_pending_job,
  is_delivering, is_job_pending, or_retry,
}

-- The row is there, pending, and not the one that is being delivered: it will still be there
-- when the delivery ends.
abbrev pub survives : Option ℕ → ℕ → Table Job → Bool
survives delivering id jobs =
    not (is_delivering delivering id)
    && (elim (lookup id jobs) [ none ↦ false | some j ↦ is_job_pending j.status ])

abbrev pub row_survives : Option ℕ → Option (ℕ × Job) → Table Job → Bool
row_survives delivering none jobs = true
row_survives delivering (some (i, j)) jobs = survives delivering i jobs

-- The row that is being delivered has an id that was given out before.
abbrev pub IsIssued : Option ℕ → ℕ → Type 0
IsIssued none n = Unit {0}
IsIssued (some d) n = d < n

-- What an attempt leaves: the other tables as they were; a row that it returns survives, and is
-- the one under its key.
abbrev pub Leaves : Option ℕ → Db → Option (ℕ × Job) → Db → Type 0
Leaves delivering db row db' =
    (db'.listings ≡ db.listings)
    × (db'.bookings ≡ db.bookings)
    × (db.next_id ≤ db'.next_id)
    × (row_survives delivering row db'.jobs ≡ true)

abbrev pub IsUnder : DedupeKey → Option (ℕ × Job) → Db → Type 0
IsUnder key row db = (row ≡ none) ⊎ (find_by_key key db.jobs ≡ row)

-- A row that an attempt returns stood under the key before, or is a new promotion of the booking,
-- due at the start. Nothing is written where it returns none.
abbrev pub IsMade : ℕ → ℕ → DedupeKey → Option (ℕ × Job) → Db → Type 0
IsMade booking at key none db = Unit {0}
IsMade booking at key (some (i, j)) db =
    (find_by_key key db.jobs ≡ some (i, j))
    ⊎ IsDue JobType.booking_promote (Payload.booking_ref booking) at j

abbrev IsIdle : Option (ℕ × Job) → Db → Db → Type 0
IsIdle none db db' = db ≡ db'
IsIdle (some row) db db' = Unit {0}

-- The two keys that a promotion for this start can have.
abbrev pub IsPromotion : ℕ → ℕ → Option ℕ → Option (ℕ × Job) → Db → Db → Type 0
IsPromotion booking at delivering row db db' =
    (IsUnder (DedupeKey.promote booking at) row db'
      × IsMade booking at (DedupeKey.promote booking at) row db)
    ⊎ (IsUnder (DedupeKey.promote_again booking at delivering) row db'
        × IsMade booking at (DedupeKey.promote_again booking at delivering) row db)

not-IsIssued :
    (delivering : Option ℕ) (n : ℕ) → IsIssued delivering n → is_delivering delivering n ≡ false
not-IsIssued none n h = refl
not-IsIssued (some d) n h = ground arith

IsIssued-mono :
    (delivering : Option ℕ) (m n : ℕ) → m ≤ n → IsIssued delivering m → IsIssued delivering n
IsIssued-mono none m n le h = tt
IsIssued-mono (some d) m n le h = omega arith

attempt-Leaves :
    (env : Env) (booking at : ℕ) (delivering : Option ℕ) (key : DedupeKey) (db : Db)
    (row : Option (ℕ × Job)) (db' : Db)
    → IsIssued delivering db.next_id
    → attempt_schedule env booking at delivering key db ≡ (ok row, db')
    → Leaves delivering db row db'
      × IsUnder key row db'
      × IsMade booking at key row db
      × IsIdle row db db'
unfolding attempt_schedule enqueue is_live_pending_job
attempt-Leaves env booking at delivering key db row db' issued e =
    let fresh = not-IsIssued delivering db.next_id issued in
    elim (Option-cases (find_by_key key db.jobs)) [
      | inl new ↦
          let j =
            new_job env JobType.booking_promote (Payload.booking_ref booking) (some key)
              (some at) in
          let is : row ≡ some (db.next_id, j) = ground arith in
          (
            ground arith,
            ground arith,
            subst (λ r. IsMade booking at key r db) (sym is) (inr (refl, refl, refl, refl, refl)),
            subst (λ r. IsIdle r db db') (sym is) tt,
          )
      | inr ((i, j), old) ↦ elim (Option-cases row) [
        | inl nothing ↦ (
          ground arith,
          ground arith,
          subst (λ r. IsMade booking at key r db) (sym nothing) tt,
          subst (λ r. IsIdle r db db') (sym nothing) (ground arith),
        )
        | inr (r, there) ↦
            let is : row ≡ some (i, j) = ground arith in
            (
              ground arith,
              ground arith,
              subst (λ r. IsMade booking at key r db) (sym is) (inl old),
              subst (λ r. IsIdle r db db') (sym is) tt,
            )
      ]
    ]

retry-Leaves :
    (env : Env) (booking at : ℕ) (delivering : Option ℕ) (first : Option (ℕ × Job)) (db mid : Db)
    (row : Option (ℕ × Job)) (db' : Db)
    → IsIssued delivering db.next_id
    → Leaves delivering db first mid
      × IsUnder (DedupeKey.promote booking at) first mid
      × IsMade booking at (DedupeKey.promote booking at) first db
      × IsIdle first db mid
    → or_retry first
        (attempt_schedule env booking at delivering (DedupeKey.promote_again booking at delivering))
        mid
      ≡ (ok row, db')
    → Leaves delivering db row db' × IsPromotion booking at delivering row db db'
retry-Leaves env booking at delivering (some r) db mid row db' issued h e =
    let row_is : some r ≡ row = ground arith in
    let same : mid ≡ db' = ground arith in
    subst (λ x. Leaves delivering db x db' × IsPromotion booking at delivering x db db') row_is
      (subst
        (λ (d : Db).
          Leaves delivering db (some r) d × IsPromotion booking at delivering (some r) db d)
        same (h.0, inl (h.1, h.2)))
retry-Leaves env booking at delivering none db mid row db' issued h e =
    let (left, under, made, _) =
      attempt-Leaves env booking at delivering (DedupeKey.promote_again booking at delivering) mid
        row db' (IsIssued-mono delivering db.next_id mid.next_id h.0.2 issued) e in
    (
      (left.0 ∙ h.0.0, left.1 ∙ h.0.1, omega arith, left.3),
      inr (
        under,
        subst (λ (d : Db). IsMade booking at (DedupeKey.promote_again booking at delivering) row d)
            (sym h.3) made,
      ),
    )

secure-Leaves :
    (env : Env) (booking at : ℕ) (delivering : Option ℕ) (db : Db) (row : Option (ℕ × Job))
    (db' : Db)
    → IsIssued delivering db.next_id
    → secure_promotion_schedule env booking at delivering db ≡ (ok row, db')
    → Leaves delivering db row db' × IsPromotion booking at delivering row db db'
unfolding secure_promotion_schedule
secure-Leaves env booking at delivering db row db' issued e =
    let (first, mid, e1, e2) =
      >>=_inv (attempt_schedule env booking at delivering (DedupeKey.promote booking at))
        (λ r. or_retry r (
          attempt_schedule env booking at delivering
            (DedupeKey.promote_again booking at delivering)))
        e in
    retry-Leaves env booking at delivering first db mid row db' issued
      (attempt-Leaves env booking at delivering (DedupeKey.promote booking at) db first mid issued
        e1)
      e2

-- Another row is due to promote the booking at its start.
abbrev pub StillScheduled : ℕ → ℕ → Option ℕ → Db → Db → Type 0
StillScheduled booking at delivering db db' =
    (id : ℕ) × (j : Job) × (survives delivering id db'.jobs ≡ true)
    × IsPromotion booking at delivering (some (id, j)) db db'

pub reschedule_ok :
    (env : Env) (booking at : ℕ) (delivering : Option ℕ) (db : Db) (p : Promotion) (db' : Db)
    → IsIssued delivering db.next_id
    → reschedule_promotion env booking at delivering db ≡ (ok p, db')
    → (p ≡ Promotion.rescheduled)
      × (db'.listings ≡ db.listings)
      × (db'.bookings ≡ db.bookings)
      × (db.next_id ≤ db'.next_id)
      × StillScheduled booking at delivering db db'
unfolding reschedule_promotion
reschedule_ok env booking at delivering db p db' issued e =
    let (row, mid, e1, e2) =
      >>=_inv (secure_promotion_schedule env booking at delivering)
        (λ row.
          some_or_throw row Failure.booking_promote_unsecured >>= λ _. pure Promotion.rescheduled)
        e in
    let (left, under) = secure-Leaves env booking at delivering db row mid issued e1 in
    finish row mid left under e2
  where
    finish :
        (row : Option (ℕ × Job)) (mid : Db)
        → Leaves delivering db row mid
        → IsPromotion booking at delivering row db mid
        → (some_or_throw row Failure.booking_promote_unsecured >>= λ _. pure Promotion.rescheduled)
            mid
          ≡ (ok p, db')
        → (p ≡ Promotion.rescheduled)
          × (db'.listings ≡ db.listings)
          × (db'.bookings ≡ db.bookings)
          × (db.next_id ≤ db'.next_id)
          × StillScheduled booking at delivering db db'
    finish none mid left under e2 = absurd (ground arith)
    finish (some (i, j)) mid left under e2 =
        let same : mid ≡ db' = ground arith in
        subst
          (λ (d : Db).
            (p ≡ Promotion.rescheduled)
            × (d.listings ≡ db.listings)
            × (d.bookings ≡ db.bookings)
            × (db.next_id ≤ d.next_id)
            × StillScheduled booking at delivering db d)
          same (ground arith, left.0, left.1, left.2, (i, j, left.3, under))
