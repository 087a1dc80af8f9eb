-- ===== src/Outbox/Enqueue.antt =====
-- src/outbox/outbox.js: enqueue and the dead-letter operations. Job types, keys, instants and
-- payloads are typed here, with ids alone in them, so the shape checks of enqueue always pass.
use homeplate.Base.{ℕ, suc, Bool, true, false, Option, none, some, [], ◌∷◌}
use mathlib.Core.Logic.{ite}
use native.Mathlib.Decide.{ℕ_discrete}
use homeplate.Table.{Table, update_where}
use homeplate.Database.{Env, Job, JobType, Payload, DedupeKey, JobStatus, Event, Tx, ok}

unfoldable pub Event-discrete : Discrete Event
Event-discrete = hlevel

unfoldable pub DedupeKey-discrete : Discrete DedupeKey
DedupeKey-discrete = hlevel (ℕ_discrete, Event-discrete)

-- SELECT * FROM outbox_jobs WHERE dedupe_key = key
abbrev pub find_by_key : DedupeKey → Table Job → Option (ℕ × Job)
find_by_key key [] = none
find_by_key key ((i, j) ∷ t) =
    let rest = find_by_key key t in
    elim j.dedupe_key [
      | none ↦ rest
      | some other ↦ ite (DedupeKey-discrete key other) (some (i, j)) rest
    ]

-- The row that an optional key conflicts with; NULL keys conflict with none.
abbrev pub conflict : Option DedupeKey → Table Job → Option (ℕ × Job)
conflict none t = none
conflict (some key) t = find_by_key key t

pub record Enqueued : Type 0 where
  pub id : ℕ
  pub job : Job
  pub deduped : Bool

abbrev coalesce : Option ℕ → ℕ → ℕ
coalesce none b = b
coalesce (some a) b = a

abbrev pub new_job : Env → JobType → Payload → Option DedupeKey → Option ℕ → Job
new_job env type payload key available = record {
  type = type;
  payload = payload;
  correlation_id = env.correlation_id;
  dedupe_key = key;
  status = JobStatus.pending;
  attempt_count = 0;
  available_at = coalesce available env.now;
  delivered_at = none;
  last_error = none;
  created_at = env.now;
}

unfoldable pub enqueue : Env → JobType → Payload → Option DedupeKey → Option ℕ → Tx Enqueued
enqueue env type payload key available db = elim (conflict key db.jobs) [
  | none ↦
      let job = new_job env type payload key available in
      (
        ok (record { id = db.next_id; job = job; deduped = false }),
        record db { jobs = (db.next_id, job) ∷ db.jobs; next_id = suc db.next_id },
      )
  | some (i, j) ↦ (ok (record { id = i; job = j; deduped = true }), db)
]

abbrev pub is_dead : JobStatus → Bool
is_dead JobStatus.dead = true
is_dead _ = false

abbrev pub reopen : Env → Job → Job
reopen env j = record j {
  status = JobStatus.pending;
  attempt_count = 0;
  available_at = env.now;
  delivered_at = none;
}

-- Re-opens a dead-lettered job with a fresh retry budget.
unfoldable pub requeue_dead_letter : Env → ℕ → Tx (Option Job)
requeue_dead_letter env id db =
    let (row, jobs) = update_where id (λ (j : Job). is_dead j.status) (reopen env) db.jobs in
    (ok row, record db { jobs = jobs })
