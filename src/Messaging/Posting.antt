-- ===== src/Messaging/Posting.antt =====
-- postMessage on every branch: the message with its scan job, or a refusal and nothing.
use homeplate.Base.{
  some, ℕ, suc, ◌≡◌, refl, true, false, none, ◌∷◌, arith, inl, inr, ◌⊎◌, Bool-cases, String,
}
use homeplate.Database.{
  JobStatus, ModerationStatus, Db, Env, Tx, ok, err, ◌>>=◌, ◌>>◌, pure, Booking, Listing, Message,
  ContentType, Job, JobType, Payload, Failure, with_transaction_ok, with_transaction_err,
}
use homeplate.Outbox.Enqueue.{enqueue, Enqueued}
use homeplate.Bookings.Repo.{Role}
use homeplate.Bookings.Participants.{IsParty, IsStranger, participant-cases}
use homeplate.Moderation.Service.{submit_for_review}
use homeplate.Messaging.Thread.{
  is_cancelled, assert_thread_open, new_message, insert_message, post_message,
}

-- A scan job of a content.
abbrev pub scan_job : Env → ContentType → ℕ → Job
scan_job env type id = record {
  type = JobType.moderation_scan;
  payload = Payload.content_ref type id;
  correlation_id = env.correlation_id;
  dedupe_key = none;
  status = JobStatus.pending;
  attempt_count = 0;
  available_at = env.now;
  delivered_at = none;
  last_error = none;
  created_at = env.now;
}

-- The database with a scan job more.
abbrev pub submitted : Env → ContentType → ℕ → Db → Db
submitted env type id db = record db {
  jobs = (db.next_id, scan_job env type id) ∷ db.jobs;
  next_id = suc db.next_id;
}

pub submit_ok :
    (env : Env) (type : ContentType) (id : ℕ) (db : Db)
    → (e : Enqueued) × (submit_for_review env type id db ≡ (ok e, submitted env type id db))
unfolding submit_for_review enqueue
submit_ok env type id db =
    (record { id = db.next_id; job = scan_job env type id; deduped = false }, refl)

-- The row of a message: its sender's, pending, written now.
abbrev pub pending_message : Env → (booking user : ℕ) → String → Message
pending_message env booking user body = record {
  booking_id = booking;
  sender_id = some user;
  body = body;
  moderation_status = ModerationStatus.pending;
  created_at = env.now;
}

-- The database with a message and its scan job.
abbrev pub posted : Env → ℕ → ℕ → String → Db → Db
posted env user booking body db = submitted env ContentType.message db.next_id (record db {
  messages = (db.next_id, pending_message env booking user body) ∷ db.messages;
  next_id = suc db.next_id;
})

-- Who may write into a thread.
abbrev pub IsThreadOpen : ℕ → ℕ → Db → Type 0
IsThreadOpen user booking db =
    (b : Booking) × (l : Listing) × (role : Role) × IsParty user booking db b l role
    × (is_cancelled b.status ≡ false)

-- Why a thread is shut.
abbrev pub IsThreadShut : ℕ → ℕ → Db → Failure → Type 0
IsThreadShut user booking db x =
    IsStranger user booking db x
    ⊎ ((b : Booking) × (l : Listing) × (role : Role) × (x ≡ Failure.booking_cancelled)
        × IsParty user booking db b l role
        × (is_cancelled b.status ≡ true))

pub thread-cases :
    (user booking : ℕ) (db : Db)
    → (IsThreadOpen user booking db
        × ((found : Booking × Listing × Role) × (assert_thread_open user booking db
              ≡ (ok found, db))))
      ⊎ ((x : Failure) × IsThreadShut user booking db x
          × (assert_thread_open user booking db ≡ (err x, db)))
thread-cases user booking db = elim (participant-cases user booking db) [
  | inr (x, why, ran) ↦ inr (x, inl why, ground arith)
  | inl (b, l, role, is, ran) ↦ elim (Bool-cases (is_cancelled b.status)) [
    | inl shut ↦ inr (Failure.booking_cancelled, inr (b, l, role, refl, is, shut), ground arith)
    | inr open_ ↦ inl ((b, l, role, is, open_), ((b, l, role), ground arith))
  ]
]

-- A message is posted by a participant of a booking that is not cancelled, pending and together
-- with its scan job; everyone else is refused, with the reason, and nothing is written.
pub post_message_branches :
    (env : Env) (user booking : ℕ) (body : String) (db : Db)
    → (IsThreadOpen user booking db
        × (post_message env user booking body db ≡ (
          ok (db.next_id, pending_message env booking user body),
          posted env user booking body db,
        )))
      ⊎ ((x : Failure) × IsThreadShut user booking db x
          × (post_message env user booking body db ≡ (err x, db)))
unfolding post_message insert_message
post_message_branches env user booking body db =
    let write : Tx (ℕ × Message) = assert_thread_open user booking >>= λ found.
    insert_message env booking user body >>= λ message.
    submit_for_review env ContentType.message message.0 >> pure message in
    let before : Db = record db {
      messages = (db.next_id, new_message env booking user body) ∷ db.messages;
      next_id = suc db.next_id;
    } in
    let (e, queued) = submit_ok env ContentType.message db.next_id before in
    elim (thread-cases user booking db) [
      | inr (x, why, ran) ↦
          let thrown : write db ≡ (err x, db) = ground arith in
          inr (x, why, with_transaction_err write thrown)
      | inl (may, (found, ran)) ↦
          let wrote : write db ≡ (
            ok (db.next_id, new_message env booking user body),
            posted env user booking body db,
          ) =
            ground arith in
          inl (may, with_transaction_ok write wrote)
    ]
