-- ===== src/Bookings/Lifecycle.antt =====
-- src/modules/bookings/lifecycle.js: the jobs that follow a booking, and its promotion when the
-- meal starts. The log and audit lines are left out.
use homeplate.Base.{
  ℕ, Bool, true, false, not, Option, none, some, List, [], ◌∷◌, ltb, ◌==◌, if◌then◌else◌,
}
use homeplate.Table.{lookup}
use homeplate.Database.{
  Db, Env, Job, JobType, Payload, DedupeKey, JobStatus, Event, Tx, Failure, ok, pure, query,
  some_or_throw, with_transaction, ◌>>=◌, ◌>>◌,
}
use homeplate.Outbox.Enqueue.{enqueue}
use homeplate.Bookings.Repo.{is_pending, is_active, select_booking_with_listing, promote_pending}

-- One notify.booking job for each recipient.
unfoldable pub enqueue_booking_notifications : Env → ℕ → Event → List ℕ → Tx (List Job)
enqueue_booking_notifications env booking_id event [] = pure []
enqueue_booking_notifications env booking_id event (r ∷ rs) = do
  e ←
      enqueue env JobType.notify_booking (Payload.notification booking_id event r)
        (some (DedupeKey.notify booking_id event r)) none
  jobs ← enqueue_booking_notifications env booking_id event rs
  pure (e.job ∷ jobs)

-- The promotion of one booking, due at the start of its listing.
unfoldable pub enqueue_promotion : Env → ℕ → ℕ → Tx Job
enqueue_promotion env booking_id at = do
  e ←
      enqueue env JobType.booking_promote (Payload.booking_ref booking_id)
        (some (DedupeKey.promote booking_id at)) (some at)
  pure e.job

abbrev pub is_job_pending : JobStatus → Bool
is_job_pending JobStatus.pending = true
is_job_pending _ = false

-- SELECT … AND status = 'pending' FOR UPDATE SKIP LOCKED
unfoldable pub is_live_pending_job : Env → ℕ → Db → Bool
is_live_pending_job env id db = elim (lookup id db.jobs) [
  | none ↦ false
  | some j ↦ if env.row_locked id then false else is_job_pending j.status
]

-- `deliveringJobId !== null && String(job.id) === String(deliveringJobId)`
abbrev pub is_delivering : Option ℕ → ℕ → Bool
is_delivering none id = false
is_delivering (some d) id = id == d

-- `attempt` of securePromotionSchedule: the row, if it survives the delivery.
unfoldable pub attempt_schedule : Env → ℕ → ℕ → Option ℕ → DedupeKey → Tx (Option (ℕ × Job))
attempt_schedule env booking_id at delivering key = do
  e ← enqueue env JobType.booking_promote (Payload.booking_ref booking_id) (some key) (some at)
  live ← query (is_live_pending_job env e.id)
  pure (
      if not e.deduped
      then some (e.id, e.job)
      else if is_delivering delivering e.id
      then none
      else if live
      then some (e.id, e.job)
      else none)

abbrev pub or_retry : Option (ℕ × Job) → Tx (Option (ℕ × Job)) → Tx (Option (ℕ × Job))
or_retry (some j) retry = pure (some j)
or_retry none retry = retry

unfoldable pub secure_promotion_schedule : Env → ℕ → ℕ → Option ℕ → Tx (Option (ℕ × Job))
secure_promotion_schedule env booking_id at delivering = do
  first ← attempt_schedule env booking_id at delivering (DedupeKey.promote booking_id at)
  or_retry first (
      attempt_schedule env booking_id at delivering
        (DedupeKey.promote_again booking_id at delivering))

pub data Promotion : Type 0 where
  promoted rescheduled noop : Promotion

-- The start is still ahead: finish only if another row will promote the booking.
unfoldable pub reschedule_promotion : Env → ℕ → ℕ → Option ℕ → Tx Promotion
reschedule_promotion env booking_id at delivering = do
  secured ← secure_promotion_schedule env booking_id at delivering
  some_or_throw secured Failure.booking_promote_unsecured
  pure Promotion.rescheduled

-- The start has come: pending → in_progress, and both parties are told.
unfoldable pub start_booking : Env → ℕ → ℕ → ℕ → Tx Promotion
start_booking env booking_id guest_id host_id = do
  row ← promote_pending booking_id
  elim row [
    | none ↦ pure Promotion.noop
    | some b ↦
        enqueue_booking_notifications env booking_id Event.started (guest_id ∷ host_id ∷ [])
        >> pure Promotion.promoted
  ]

unfoldable pub promote_found : Env → ℕ → Option ℕ → Tx Promotion
promote_found env booking_id delivering db = elim (select_booking_with_listing booking_id db) [
  | none ↦ (ok Promotion.noop, db)
  | some (b, l) ↦
      if not (is_pending b.status)
      then (ok Promotion.noop, db)
      else if not (is_active l.status)
      then (ok Promotion.noop, db)
      else if ltb env.date_now l.scheduled_start
      then reschedule_promotion env booking_id l.scheduled_start delivering db
      else start_booking env booking_id b.guest_id l.host_id db
]

unfoldable pub promote_due_booking : Env → ℕ → Option ℕ → Tx Promotion
unfolding promote_found
promote_due_booking env booking_id delivering =
    with_transaction (promote_found env booking_id delivering)
