-- ===== src/Outbox/Attempts.antt =====
-- The worker: what becomes of a claimed job, its budget of attempts, and the counts of a poll.
use mathlib.Core.Path.{subst}
use native.Mathlib.Nat.{min-le_right}
use homeplate.Base.{
  Option, ℕ, suc, ◌+◌, ◌-◌, ◌*◌, ◌^◌, ◌≡◌, ◌≢◌, ◌≤◌, ◌<◌, refl, ap, ◌∙◌, arith, none, some, List,
  [], ◌∷◌, ◌++◌, leb, if◌then◌else◌, length, take, length-take-le, inl, inr, Bool-cases, ==_refl,
}
use homeplate.Table.{Table, lookup, select}
use homeplate.Table.Laws.{lookup-modify}
use homeplate.Database.{
  Db, Env, Job, JobStatus, Failure, Result, ok, err, with_transaction_ok, >>=_ok,
}
use homeplate.Outbox.Worker.{
  Settings, Registry, Outcome, Stats, compute_backoff_delay, is_due, unlocked, order_jobs,
  claim_batch, handle, deliver, bury, retry_later, record_outcome, process_claimed_job, counted,
  process_jobs, poll_once,
}

-- What the worker makes of a job whose handler returned `result`, written without the tables.
abbrev pub settled : Env → Settings → Result (Unit {0}) → Job → Outcome × Job
settled env s (ok u) j = (Outcome.delivered, deliver env (suc j.attempt_count) j)
settled env s (err e) j =
    let attempt = suc j.attempt_count in
    let delay = compute_backoff_delay attempt s.backoff_base_ms 2 s.backoff_max_ms in
    if leb s.max_attempts attempt
    then (Outcome.dead_lettered, bury attempt e j)
    else (Outcome.retried, retry_later env attempt delay e j)

pub record_outcome_settles :
    (env : Env) (s : Settings) (id : ℕ) (result : Result (Unit {0})) (job : Job) (db : Db)
    → lookup id db.jobs ≡ some job
    → (k : ℕ)
    → let left = record_outcome env s id (suc job.attempt_count) result db in
      (left.0 ≡ ok (settled env s result job).0)
      × (lookup id left.1.jobs ≡ some (settled env s result job).1)
      × (k ≢ id → lookup k left.1.jobs ≡ lookup k db.jobs)
unfolding record_outcome
record_outcome_settles env s id (ok u) job db here k =
    let f = deliver env (suc job.attempt_count) in
    (
      refl,
      ground (arith, lookup-modify id id f db.jobs, here, ==_refl id),
      λ other. ground (arith, lookup-modify k id f db.jobs),
    )
record_outcome_settles env s id (err e) job db here k =
    let attempt = suc job.attempt_count in
    let delay = compute_backoff_delay attempt s.backoff_base_ms 2 s.backoff_max_ms in
    let dead = bury attempt e in
    let later = retry_later env attempt delay e in
    elim (Bool-cases (leb s.max_attempts attempt)) [
      | inl spent ↦ (
        ground (arith, spent),
        ground (arith, spent, lookup-modify id id dead db.jobs, here, ==_refl id),
        λ other. ground (arith, spent, lookup-modify k id dead db.jobs),
      )
      | inr left ↦ (
        ground (arith, left),
        ground (arith, left, lookup-modify id id later db.jobs, here, ==_refl id),
        λ other. ground (arith, left, lookup-modify k id later db.jobs),
      )
    ]

-- A claimed job whose row stands after its handler as it was claimed is delivered, retried or dead
-- by what the handler returned; its row says so, and any other row is what the handler left.
pub process_claimed_job_settles :
    (env : Env) (s : Settings) (registry : Registry) (id : ℕ) (job : Job) (db : Db)
    → lookup id (handle registry id job db).1.jobs ≡ some job
    → (k : ℕ) → k ≢ id
    → let (result, after) = handle registry id job db in
      let left = process_claimed_job env s registry (id, job) db in
      (left.0 ≡ ok (settled env s result job).0)
      × (lookup id left.1.jobs ≡ some (settled env s result job).1)
      × (lookup k left.1.jobs ≡ lookup k after.jobs)
unfolding process_claimed_job
process_claimed_job_settles env s registry id job db here k other =
    let p = handle registry id job db in
    let (returned, row, rest) = record_outcome_settles env s id p.0 job p.1 here k in
    (returned, row, rest other)

pub settled_bounded :
    (env : Env) (s : Settings) (result : Result (Unit {0})) (job : Job)
    → job.status ≡ JobStatus.pending
    → (settled env s result job).1.status ≡ JobStatus.pending
    → let row = (settled env s result job).1 in
      (row.attempt_count ≡ suc job.attempt_count)
      × (row.attempt_count < s.max_attempts)
      × (env.now ≤ row.available_at)
      × (row.available_at ≤ env.now + s.backoff_max_ms)
settled_bounded env s (ok u) job was is = absurd (ground arith)
settled_bounded env s (err e) job was is =
    let attempt = suc job.attempt_count in
    let exponential = s.backoff_base_ms * 2 ^ (attempt - 1) in
    elim (Bool-cases (leb s.max_attempts attempt)) [
      | inl spent ↦ absurd (ground (arith, spent))
      | inr left ↦ (
        ground (arith, left),
        ground (arith, left),
        ground (arith, left),
        ground (arith, left, min-le_right exponential s.backoff_max_ms),
      )
    ]

-- Where the row of a pending job is still pending after the outcome of its attempt was recorded, it
-- has counted one attempt more, has attempts left in its budget, and is due no earlier than now and
-- no later than the cap of the delay after now.
pub record_outcome_bounded :
    (env : Env) (s : Settings) (id : ℕ) (result : Result (Unit {0})) (job row : Job) (db : Db)
    → lookup id db.jobs ≡ some job
    → job.status ≡ JobStatus.pending
    → lookup id (record_outcome env s id (suc job.attempt_count) result db).1.jobs ≡ some row
    → row.status ≡ JobStatus.pending
    → (row.attempt_count ≡ suc job.attempt_count)
      × (row.attempt_count < s.max_attempts)
      × (env.now ≤ row.available_at)
      × (row.available_at ≤ env.now + s.backoff_max_ms)
record_outcome_bounded env s id result job row db here was after is =
    let (_, found, _) = record_outcome_settles env s id result job db here 0 in
    let same : (settled env s result job).1 ≡ row = same_row found after in
    subst
      (λ (r : Job).
        (r.attempt_count ≡ suc job.attempt_count)
        × (r.attempt_count < s.max_attempts)
        × (env.now ≤ r.available_at)
        × (r.available_at ≤ env.now + s.backoff_max_ms))
      same (settled_bounded env s result job was (ap (λ (r : Job). r.status) same ∙ is))
  where
    same_row : {a b : Job} {found : Option Job} → found ≡ some a → found ≡ some b → a ≡ b
    same_row e h = ground arith

-- The row `id` after one failing attempt for each entry of the list.
abbrev pub fail_all : Settings → ℕ → List (Env × Failure) → Db → Db
fail_all s id [] db = db
fail_all s id ((env, e) ∷ rest) db = elim (lookup id db.jobs) [
  | none ↦ db
  | some j ↦ fail_all s id rest (record_outcome env s id (suc j.attempt_count) (err e) db).1
]

fail_all_step :
    (s : Settings) (id : ℕ) (env : Env) (e : Failure) (rest : List (Env × Failure)) (j : Job)
    (db : Db)
    → lookup id db.jobs ≡ some j
    → fail_all s id ((env, e) ∷ rest) db
      ≡ fail_all s id rest (record_outcome env s id (suc j.attempt_count) (err e) db).1
fail_all_step s id env e rest j db here = ground arith

-- A pending row outlives the failures that its budget has room for, and is still pending after them;
-- the one that uses the budget up leaves it dead, with every attempt counted and the last reason.
pub retry_exhausted :
    (s : Settings) (id : ℕ) (rounds : List (Env × Failure)) (env : Env) (e : Failure) (j : Job)
    (db : Db)
    → lookup id db.jobs ≡ some j
    → j.status ≡ JobStatus.pending
    → j.attempt_count + suc (length rounds) ≡ s.max_attempts
    → (k d : Job) × (lookup id (fail_all s id rounds db).jobs ≡ some k)
      × (k.status ≡ JobStatus.pending)
      × (lookup id (fail_all s id (rounds ++ ((env, e) ∷ [])) db).jobs ≡ some d)
      × (d.status ≡ JobStatus.dead)
      × (d.attempt_count ≡ s.max_attempts)
      × (d.last_error ≡ some e)
retry_exhausted s id [] env e j db here was budget =
    let (returned, row, rest) = record_outcome_settles env s id (err e) j db here 0 in
    let step = fail_all_step s id env e [] j db here in
    let last : suc j.attempt_count ≡ s.max_attempts = omega (arith, budget) in
    (
      j,
      bury (suc j.attempt_count) e j,
      here,
      was,
      ground (arith, row, step, last),
      refl,
      last,
      refl,
    )
retry_exhausted s id ((env', e') ∷ rounds) env e j db here was budget =
    let (returned, row, rest) = record_outcome_settles env' s id (err e') j db here 0 in
    let step = fail_all_step s id env' e' rounds j db here in
    let step' = fail_all_step s id env' e' (rounds ++ ((env, e) ∷ [])) j db here in
    let (k, d, found, still, gone, dead, spent, reason) =
      retry_exhausted s id rounds env e (settled env' s (err e') j).1
        (record_outcome env' s id (suc j.attempt_count) (err e') db).1 row (ground (arith, budget))
        (ground (arith, budget)) in
    (
      k,
      d,
      ap (λ (x : Db). lookup id x.jobs) step ∙ found,
      still,
      ap (λ (x : Db). lookup id x.jobs) step' ∙ gone,
      dead,
      spent,
      reason,
    )

-- The jobs that a count of outcomes is of.
abbrev pub settled_count : Stats → ℕ
settled_count n = n.delivered + n.retried + n.dead_lettered

record_outcome_returns :
    (env : Env) (s : Settings) (id attempt : ℕ) (result : Result (Unit {0})) (db : Db)
    → (o : Outcome) × (db' : Db) × (record_outcome env s id attempt result db ≡ (ok o, db'))
unfolding record_outcome
record_outcome_returns env s id attempt (ok u) db = (Outcome.delivered, _, refl)
record_outcome_returns env s id attempt (err e) db =
    let p = record_outcome env s id attempt (err e) db in
    elim (Bool-cases (leb s.max_attempts attempt)) [
      | inl spent ↦ (Outcome.dead_lettered, p.1, ground (arith, spent))
      | inr left ↦ (Outcome.retried, p.1, ground (arith, left))
    ]

process_jobs-counts :
    (env : Env) (s : Settings) (registry : Registry) (rows : Table Job) (n : Stats) (db : Db)
    → (m : Stats) × (db' : Db) × (process_jobs env s registry rows n db ≡ (ok m, db'))
      × (settled_count m ≡ settled_count n + length rows)
      × (m.claimed ≡ n.claimed)
unfolding process_jobs process_claimed_job
process_jobs-counts env s registry [] n db = (n, db, refl, ground arith, refl)
process_jobs-counts env s registry ((id, job) ∷ rows) n db =
    let p = handle registry id job db in
    let (o, mid, ran) = record_outcome_returns env s id (suc job.attempt_count) p.0 p.1 in
    let (m, last, rest, sum, same) = process_jobs-counts env s registry rows (counted o n) mid in
    (
      m,
      last,
      >>=_ok (process_claimed_job env s registry (id, job))
            (λ o. process_jobs env s registry rows (counted o n)) ran
          ∙ rest,
      ground (arith, sum),
      ground (arith, same),
    )

-- A poll always returns, whatever the handlers do, and has claimed at most a batch; every job that
-- it claimed was delivered, retried or dead-lettered.
pub poll_once_counts :
    (env : Env) (s : Settings) (registry : Registry) (batch_size : ℕ) (db : Db)
    → (m : Stats) × (db' : Db) × (poll_once env s registry batch_size db ≡ (ok m, db'))
      × (m.claimed ≤ batch_size)
      × (settled_count m ≡ m.claimed)
unfolding poll_once claim_batch
poll_once_counts env s registry batch_size db =
    let rows = take batch_size (order_jobs (unlocked env (select (is_due env) db.jobs))) in
    let start : Stats = record {
      claimed = length rows;
      delivered = 0;
      retried = 0;
      dead_lettered = 0;
    } in
    let (m, last, ran, sum, same) = process_jobs-counts env s registry rows start db in
    (
      m,
      last,
      with_transaction_ok _ ran,
      ground (
        arith,
        same,
        length-take-le batch_size (order_jobs (unlocked env (select (is_due env) db.jobs))),
      ),
      ground (arith, sum, same),
    )
