-- ===== src/Outbox/Settling.antt =====
-- processClaimedJob of src/outbox/worker.js: what the row of a job says when its attempt is over.
use mathlib.Core.Path.{subst}
use homeplate.Base.{
  ℕ, suc, ◌+◌, ◌≡◌, ◌≤◌, ◌<◌, refl, sym, arith, some, leb, inl, inr, ◌⊎◌, Bool-cases,
}
use homeplate.Table.{lookup}
use homeplate.Database.{Db, Env, Job, JobStatus, Failure, Result, ok, err}
use homeplate.Outbox.Worker.{Settings, Outcome, record_outcome}
use homeplate.Outbox.Attempts.{settled, record_outcome_settles, settled_bounded}

-- The row agrees with what the worker answers: delivered now, dead with the reason, or pending with
-- attempts left and due between now and the longest delay after now. Each counts the attempt.
pub record IsTold (env : Env) (s : Settings) (attempt : ℕ) (r : Result Outcome) (row : Job)
    : Type 0 where
  pub counted : row.attempt_count ≡ attempt
  pub ends :
      ((r ≡ ok Outcome.delivered)
        × (row.status ≡ JobStatus.delivered)
        × (row.delivered_at ≡ some env.now))
      ⊎ (((r ≡ ok Outcome.dead_lettered)
            × (row.status ≡ JobStatus.dead)
            × (s.max_attempts ≤ attempt)
            × ((x : Failure) × (row.last_error ≡ some x)))
          ⊎ ((r ≡ ok Outcome.retried)
              × (row.status ≡ JobStatus.pending)
              × (attempt < s.max_attempts)
              × (env.now ≤ row.available_at)
              × (row.available_at ≤ env.now + s.backoff_max_ms)
              × ((x : Failure) × (row.last_error ≡ some x))))

settled-IsTold :
    (env : Env) (s : Settings) (result : Result (Unit {0})) (job : Job)
    → job.status ≡ JobStatus.pending
    → IsTold env s
        (suc job.attempt_count)
        (ok (settled env s result job).0)
        (settled env s result job).1
settled-IsTold env s (ok u) job was = record { counted = refl; ends = inl (refl, refl, refl) }
settled-IsTold env s (err e) job was =
    elim (Bool-cases (leb s.max_attempts (suc job.attempt_count))) [
      | inl spent ↦ record {
        counted = ground (arith, spent);
        ends = inr (
            inl (
              ground (arith, spent),
              ground (arith, spent),
              ground (arith, spent),
              (e, ground (arith, spent)),
            ));
      }
      | inr left ↦
          let is : (settled env s (err e) job).1.status ≡ JobStatus.pending =
            ground (arith, left, was) in
          let (count, room, due, by) = settled_bounded env s (err e) job was is in
          record {
            counted = count;
            ends = inr (
                inr (
                  ground (arith, left),
                  is,
                  omega (arith, count, room),
                  due,
                  by,
                  (e, ground (arith, left)),
                ));
          }
    ]

-- The row of a pending job when the outcome of its attempt is recorded.
pub record_outcome-IsTold :
    (env : Env) (s : Settings) (id : ℕ) (result : Result (Unit {0})) (job : Job) (db : Db)
    → lookup id db.jobs ≡ some job
    → job.status ≡ JobStatus.pending
    → let (r, after) = record_outcome env s id (suc job.attempt_count) result db in
      (row : Job) × (lookup id after.jobs ≡ some row) × IsTold env s (suc job.attempt_count) r row
record_outcome-IsTold env s id result job db here was =
    let (returned, row, _) = record_outcome_settles env s id result job db here 0 in
    (
      (settled env s result job).1,
      row,
      subst (λ r. IsTold env s (suc job.attempt_count) r (settled env s result job).1)
          (sym returned) (settled-IsTold env s result job was),
    )
