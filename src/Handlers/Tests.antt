-- ===== src/Handlers/Tests.antt =====
-- Jobs and their handlers at concrete inputs.
use homeplate.Moderation.Service.{process_scan}
use homeplate.Safety.Repo.{load_for_delivery}
use homeplate.Outbox.Settling.{IsTold}
use homeplate.Base.{[], ◌∷◌, ℕ, ◌≤◌, ◌≡◌, ◌⊎◌, refl, true, false, Option, none, some, is_some}
use homeplate.Table.{lookup}
use homeplate.Database.{
  err, Db, Tx, ErasureReason, ok, pure, Job, JobType, JobStatus, Payload, DedupeKey, SafetyAlert,
  ContentType, Failure,
}
use homeplate.Outbox.Worker
use homeplate.Outbox.Worker.{Settings, Registry, process_claimed_job}
use homeplate.Bookings.Tests.{at}
use homeplate.Moderation.Repo.{find_open}
use homeplate.Moderation.Tests.{drafted, down, mild}
use homeplate.Safety.Tests.{outage, outage-IsForeign, alarm, alarmed}
use homeplate.Auth.Sessions.{is_session_of}
use homeplate.Auth.SessionTests.{keys, keys-IsComplete}
use homeplate.Eligibility.Tests.{cook}
use homeplate.Media.Service.{Storage}
use homeplate.Privacy.Service.{Notice}
use homeplate.Privacy.Forgotten.{IsForgotten}
use homeplate.Privacy.Tests.{home, asked, days}
use homeplate.Handlers.{registry, account_erasure}
use homeplate.Handlers.Erasing.{HasNoMedia, account_erasure_erases}
use homeplate.Handlers.Delivery.{Tells, alert_and_job_agree, scan_outage_defers}

abbrev idle : Registry
idle type = some (λ payload ctx. pure tt)

abbrev eight : Settings
eight = record { max_attempts = 8; backoff_base_ms = 1000; backoff_max_ms = 60000 }

abbrev call_out : Job
call_out = record {
  type = JobType.safety_alert;
  payload = Payload.alert_ref 40 11;
  correlation_id = none;
  dedupe_key = some (DedupeKey.alert 40);
  status = JobStatus.pending;
  attempt_count = 7;
  available_at = 90;
  delivered_at = none;
  last_error = none;
  created_at = 90;
}

abbrev alarmed_job : Db
alarmed_job = record alarmed { jobs = (41, call_out) ∷ [] }

job_loaded : load_for_delivery 40 alarmed_job ≡ some alarm
unfolding load_for_delivery
job_loaded = refl

-- The last attempt, with no mail going out.
alert_and_job_agree_example :
    let (r, after) =
      process_claimed_job
        (at 100)
        eight
        (registry mild outage (at 100) idle)
        (41, call_out)
        alarmed_job in
    ((b : SafetyAlert) × (lookup 40 after.safety_alerts ≡ some b) × Tells r b.delivery_status)
    × (is_some (find_open ContentType.safety_alert 40 after.queue) ≡ true)
    × ((row : Job) × (lookup 41 after.jobs ≡ some row) × IsTold (at 100) eight 8 r row)
alert_and_job_agree_example =
    alert_and_job_agree mild outage (at 100) idle eight 41 call_out 40 11 alarmed_job alarm
      outage-IsForeign refl refl refl job_loaded refl refl refl

abbrev scan_due : Job
scan_due = record call_out {
  type = JobType.moderation_scan;
  payload = Payload.content_ref ContentType.listing 10;
  dedupe_key = none;
  attempt_count = 0;
}

abbrev drafted_job : Db
drafted_job = record drafted { jobs = (41, scan_due) ∷ [] }

job_fails :
    process_scan down (at 100) ContentType.listing 10 drafted_job
    ≡ (err Failure.provider_error, drafted_job)
unfolding process_scan homeplate.Moderation.Service.begin_scan homeplate.Moderation.Prefilter.check
    homeplate.Moderation.Prefilter.live_content_gate
    homeplate.Moderation.Repo.count_recent_by_author
job_fails = refl

scan_outage_defers_example :
    let (r, after) =
      process_claimed_job
        (at 100)
        eight
        (registry down outage (at 100) idle)
        (41, scan_due)
        drafted_job in
    (((r ≡ ok Worker.Outcome.dead_lettered) × (8 ≤ 1))
      ⊎ ((r ≡ ok Worker.Outcome.retried) × (2 ≤ 8)))
    × (after ≡ record drafted_job { jobs = after.jobs })
    × ((row : Job) × (lookup 41 after.jobs ≡ some row) × IsTold (at 100) eight 1 r row)
scan_outage_defers_example =
    scan_outage_defers down outage (at 100) idle eight 41 scan_due ContentType.listing 10
      drafted_job drafted_job Failure.provider_error refl refl job_fails refl refl

-- Every object can be deleted; no mail goes out.
abbrev storage : Storage
storage key = true

abbrev silent : (user request : ℕ) → Tx (Option Notice)
silent user request = pure none

abbrev first_try : Worker.Context
first_try = record {
  job_id = 41;
  type = JobType.account_erasure;
  attempt = 1;
  idempotency_key = Worker.IdempotencyKey.of_job 41;
}

account_erasure_erases_example :
    (db' : Db) × (account_erasure storage silent days keys
        (at 100)
        (Payload.erasure_ref 1 30 ErasureReason.deletion)
        first_try
        home
      ≡ (ok tt, db'))
    × IsForgotten 1 db'
    × HasNoMedia 1 db'
    × ((k : ℕ) → is_session_of (at 100) 1 k db'.sessions ≡ false)
account_erasure_erases_example =
    account_erasure_erases storage silent days keys (at 100) first_try 1 30 asked cook home
      (refl, tt) keys-IsComplete refl refl refl refl refl
