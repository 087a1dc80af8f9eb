-- ===== src/Outbox/Tests.antt =====
-- The worker at concrete inputs.
use homeplate.Base.{ℕ, ◌≡◌, refl, false, none, some, List, [], ◌∷◌, ◌++◌}
use homeplate.Table.{lookup}
use homeplate.Database.{empty_db, Db, Env, Job, JobType, JobStatus, Payload, Failure, err}
use homeplate.Outbox.Worker.{Settings, Registry}
use homeplate.Outbox.Attempts.{fail_all, retry_exhausted}

abbrev at : ℕ → Env
at t = record { now = t; date_now = t; correlation_id = none; row_locked = λ i. false }

abbrev limits : Settings
limits = record { max_attempts = 3; backoff_base_ms = 1000; backoff_max_ms = 60000 }

-- Only notifications have a handler, and the mail provider is down.
abbrev offline : Registry
offline JobType.notify_booking = some (λ payload context db. (err Failure.provider_error, db))
offline _ = none

abbrev job : Job
job = record {
  type = JobType.notify_booking;
  payload = Payload.booking_ref 1;
  correlation_id = none;
  dedupe_key = none;
  status = JobStatus.pending;
  attempt_count = 0;
  available_at = 50;
  delivered_at = none;
  last_error = none;
  created_at = 50;
}

abbrev queue : Db
queue = record empty_db { jobs = (8, job) ∷ (7, job) ∷ []; next_id = 9 }

abbrev retried : Job
retried = record job {
  attempt_count = 1;
  available_at = 1100;
  last_error = some Failure.provider_error;
}

abbrev rounds : List (Env × Failure)
rounds = (at 100, Failure.provider_error) ∷ (at 2000, Failure.provider_error) ∷ []

retry_exhausted_example :
    (k d : Job) × (lookup 7 (fail_all limits 7 rounds queue).jobs ≡ some k)
    × (k.status ≡ JobStatus.pending)
    × (lookup 7 (fail_all limits 7 (rounds ++ ((at 5000, Failure.no_handler) ∷ [])) queue).jobs
        ≡ some d)
    × (d.status ≡ JobStatus.dead)
    × (d.attempt_count ≡ 3)
    × (d.last_error ≡ some Failure.no_handler)
retry_exhausted_example =
    retry_exhausted limits 7 rounds (at 5000) Failure.no_handler job queue refl refl refl
