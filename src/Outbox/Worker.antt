-- ===== src/Outbox/Worker.antt =====
-- src/outbox/worker.js and the delay of src/lib/resilience.js: a poll claims the due jobs, runs
-- their handlers and records what became of each. A handler is an argument: it may do anything to
-- the tables on its own connection, and succeeds or fails.
use homeplate.Base.{
  ℕ, suc, ◌+◌, ◌-◌, ◌*◌, ◌^◌, min, Bool, true, false, ◌&&◌, Option, none, some, [], ◌∷◌, leb, ltb,
  ◌==◌, if◌then◌else◌, length, take,
}
use homeplate.Table.{Table, select, modify}
use homeplate.Database.{
  Env, Job, JobType, Payload, DedupeKey, JobStatus, Failure, Result, ok, err, Tx, pure, query,
  ◌>>=◌, with_transaction,
}

pub record Settings : Type 0 where
  pub max_attempts : ℕ
  pub backoff_base_ms : ℕ
  pub backoff_max_ms : ℕ

-- computeBackoffDelay, with the jitter of 0 that the worker uses.
abbrev pub compute_backoff_delay : ℕ → ℕ → ℕ → ℕ → ℕ
compute_backoff_delay attempt base factor max = min (base * factor ^ (attempt - 1)) max

-- `dedupe_key || "outbox:<id>"`
pub data IdempotencyKey : Type 0 where
  of_key : DedupeKey → IdempotencyKey
  of_job : ℕ → IdempotencyKey

abbrev pub idempotency_key : ℕ → Option DedupeKey → IdempotencyKey
idempotency_key id none = IdempotencyKey.of_job id
idempotency_key id (some key) = IdempotencyKey.of_key key

pub record Context : Type 0 where
  pub job_id : ℕ
  pub type : JobType
  pub attempt : ℕ
  pub idempotency_key : IdempotencyKey

abbrev pub Handler : Type 0
Handler = Payload → Context → Tx (Unit {0})

abbrev pub Registry : Type 0
Registry = JobType → Option Handler

abbrev pub is_pending : JobStatus → Bool
is_pending JobStatus.pending = true
is_pending _ = false

-- WHERE status = 'pending' AND available_at <= now()
abbrev pub is_due : Env → Job → Bool
is_due env j = is_pending j.status && leb j.available_at env.now

-- FOR UPDATE SKIP LOCKED
abbrev pub unlocked : Env → Table Job → Table Job
unlocked env [] = []
unlocked env ((i, j) ∷ t) =
    let rest = unlocked env t in if env.row_locked i then rest else (i, j) ∷ rest

-- ORDER BY available_at, id
abbrev pub is_before : ℕ × Job → ℕ × Job → Bool
is_before (i, j) (i', j') =
    if j.available_at == j'.available_at then leb i i' else ltb j.available_at j'.available_at

abbrev pub insert_ordered : ℕ × Job → Table Job → Table Job
insert_ordered row [] = row ∷ []
insert_ordered row (next ∷ t) =
    let rest = insert_ordered row t in if is_before row next then row ∷ next ∷ t else next ∷ rest

abbrev pub order_jobs : Table Job → Table Job
order_jobs [] = []
order_jobs (row ∷ t) = insert_ordered row (order_jobs t)

unfoldable pub claim_batch : Env → ℕ → Tx (Table Job)
claim_batch env batch_size =
    query (λ db. take batch_size (order_jobs (unlocked env (select (is_due env) db.jobs))))

pub data Outcome : Type 0 where
  delivered retried dead_lettered : Outcome

-- registry.get and handler.handle
unfoldable pub handle : Registry → ℕ → Job → Tx (Unit {0})
handle registry id job db = elim (registry job.type) [
  | none ↦ (err (Failure.no_handler), db)
  | some run ↦
      run job.payload
        (record {
          job_id = id;
          type = job.type;
          attempt = suc job.attempt_count;
          idempotency_key = idempotency_key id job.dedupe_key;
        })
        db
]

abbrev pub deliver : Env → ℕ → Job → Job
deliver env attempt j = record j {
  status = JobStatus.delivered;
  attempt_count = attempt;
  delivered_at = some env.now;
  last_error = none;
}

abbrev pub bury : ℕ → Failure → Job → Job
bury attempt reason j = record j {
  status = JobStatus.dead;
  attempt_count = attempt;
  last_error = some reason;
}

abbrev pub retry_later : Env → ℕ → ℕ → Failure → Job → Job
retry_later env attempt delay reason j = record j {
  attempt_count = attempt;
  available_at = env.now + delay;
  last_error = some reason;
}

-- The UPDATE behind the handler, by what the handler returned.
unfoldable pub record_outcome : Env → Settings → ℕ → ℕ → Result (Unit {0}) → Tx Outcome
record_outcome env s id attempt (ok u) db =
    (ok Outcome.delivered, record db { jobs = modify id (deliver env attempt) db.jobs })
record_outcome env s id attempt (err reason) db =
    let delay = compute_backoff_delay attempt s.backoff_base_ms 2 s.backoff_max_ms in
    if leb s.max_attempts attempt
    then (ok Outcome.dead_lettered, record db { jobs = modify id (bury attempt reason) db.jobs })
    else (
      ok Outcome.retried,
      record db { jobs = modify id (retry_later env attempt delay reason) db.jobs },
    )

unfoldable pub process_claimed_job : Env → Settings → Registry → ℕ × Job → Tx Outcome
process_claimed_job env s registry (id, job) db =
    let (result, after) = handle registry id job db in
    record_outcome env s id (suc job.attempt_count) result after

pub record Stats : Type 0 where
  pub claimed : ℕ
  pub delivered : ℕ
  pub retried : ℕ
  pub dead_lettered : ℕ

-- `stats[outcome] += 1`
abbrev pub counted : Outcome → Stats → Stats
counted Outcome.delivered n = record n { delivered = suc n.delivered }
counted Outcome.retried n = record n { retried = suc n.retried }
counted Outcome.dead_lettered n = record n { dead_lettered = suc n.dead_lettered }

unfoldable pub process_jobs : Env → Settings → Registry → Table Job → Stats → Tx Stats
process_jobs env s registry [] stats = pure stats
process_jobs env s registry (row ∷ rows) stats = do
  outcome ← process_claimed_job env s registry row
  process_jobs env s registry rows (counted outcome stats)

unfoldable pub poll_once : Env → Settings → Registry → ℕ → Tx Stats
poll_once env s registry batch_size = with_transaction (do
  rows ← claim_batch env batch_size
  process_jobs env s registry rows
      (record { claimed = length rows; delivered = 0; retried = 0; dead_lettered = 0 }))
