-- ===== src/Handlers/Delivery.antt =====
-- The worker and its handlers together: what a job and the row that it is about say of each other.
use homeplate.Safety.Untouched.{handle-KeepsJobs}
use homeplate.Outbox.Settling.{IsTold, record_outcome-IsTold}
use homeplate.Base.{
  ℕ, suc, ◌≤◌, ◌≡◌, refl, sym, ap, ◌∙◌, true, false, some, arith, inl, inr, ◌⊎◌, Bool-cases, leb,
  is_some,
}
use mathlib.Core.Path.{subst}
use homeplate.Table.{lookup}
use homeplate.Database.{
  JobStatus, Db, Env, Result, ok, err, Job, JobType, Payload, SafetyAlert, DeliveryStatus,
  ContentType, Failure, Result-cases,
}
use homeplate.Outbox.Worker
use homeplate.Outbox.Worker.{Settings, Registry, process_claimed_job, record_outcome}
use homeplate.Moderation.Repo.{find_open}
use homeplate.Moderation.Service.{Scanner, process_scan}
use homeplate.Moderation.Publication.{process_scan_failed}
use homeplate.Safety.Repo.{load_for_delivery}
use homeplate.Safety.Delivery.{Channels, handle, is_terminal}
use homeplate.Safety.Handling.{IsForeign, handle_marks}
use homeplate.Handlers.{registry, moderation_scan, safety_alert}

-- What a delivered, a dead and a retried job say of the alert that they are about.
abbrev pub Tells : Result Worker.Outcome → DeliveryStatus → Type 0
Tells r s =
    ((r ≡ ok Worker.Outcome.delivered)
      × ((s ≡ DeliveryStatus.delivered) ⊎ (s ≡ DeliveryStatus.no_channel)))
    ⊎ (((r ≡ ok Worker.Outcome.dead_lettered) × (s ≡ DeliveryStatus.failed))
        ⊎ ((r ≡ ok Worker.Outcome.retried)
            × ((s ≡ DeliveryStatus.retrying) ⊎ (s ≡ DeliveryStatus.failed))))

-- The recording of an outcome writes the outbox alone.
record_outcome-jobs :
    (env : Env) (s : Settings) (id attempt : ℕ) (r : Result (Unit {0})) (db : Db)
    → let after = (record_outcome env s id attempt r db).1 in
      after ≡ record db { jobs = after.jobs }
unfolding record_outcome
record_outcome-jobs env s id attempt (ok u) db = refl
record_outcome-jobs env s id attempt (err e) db = elim (Bool-cases (leb s.max_attempts attempt)) [
  | inl spent ↦ ground arith
  | inr left ↦ ground arith
]

record_outcome_err :
    (env : Env) (s : Settings) (id attempt : ℕ) (x : Failure) (db : Db)
    → (((record_outcome env s id attempt (err x) db).0 ≡ ok Worker.Outcome.dead_lettered)
        × (s.max_attempts ≤ attempt))
      ⊎ (((record_outcome env s id attempt (err x) db).0 ≡ ok Worker.Outcome.retried)
          × (suc attempt ≤ s.max_attempts))
unfolding record_outcome
record_outcome_err env s id attempt x db = elim (Bool-cases (leb s.max_attempts attempt)) [
  | inl spent ↦ inl (ground arith, ground arith)
  | inr left ↦ inr (ground arith, ground arith)
]

record_outcome_ok :
    (env : Env) (s : Settings) (id attempt : ℕ) (db : Db)
    → (record_outcome env s id attempt (ok tt) db).0 ≡ ok Worker.Outcome.delivered
unfolding record_outcome
record_outcome_ok env s id attempt db = refl

abbrev forget : {A : Type 0} → Result A → Result (Unit {0})
forget (ok a) = ok tt
forget (err x) = err x

module _ (scanner : Scanner) (c : Channels) (env : Env) (others : Registry) (s : Settings) (id : ℕ)
    (job : Job) where
  alert_handled :
      (alert booking : ℕ) (db : Db)
      → job.type ≡ JobType.safety_alert
      → job.payload ≡ Payload.alert_ref alert booking
      → let p = handle c env alert (suc job.attempt_count) db in
        process_claimed_job env s (registry scanner c env others) (id, job) db
        ≡ record_outcome env s id (suc job.attempt_count) (forget p.0) p.1
  unfolding process_claimed_job Worker.handle safety_alert
  alert_handled alert booking db kind about =
      elim (Result-cases (handle c env alert (suc job.attempt_count) db)) [
        | inl (d, mid, e) ↦ ground arith
        | inr (x, mid, e) ↦ ground arith
      ]

  -- A job of an alert that is not at an end yet, with the budget of attempts that its handler
  -- knows, given that the services never throw the code of the unreadable contact: it is delivered
  -- with the alert delivered or without a channel, dead with the alert failed, or retried with the
  -- alert retrying or failed; and the alert has an open item in the moderators' queue. The job's
  -- row, which was pending as it was claimed, says the same, with the attempt counted: delivered now,
  -- dead with the reason, or pending with attempts left, due within the longest delay from now.
  pub alert_and_job_agree :
      (alert booking : ℕ) (db : Db) (a : SafetyAlert)
      → IsForeign c
      → job.type ≡ JobType.safety_alert
      → job.payload ≡ Payload.alert_ref alert booking
      → c.max_attempts ≡ s.max_attempts
      → load_for_delivery alert db ≡ some a
      → is_terminal a.delivery_status ≡ false
      → lookup id db.jobs ≡ some job
      → job.status ≡ JobStatus.pending
      → let (r, after) = process_claimed_job env s (registry scanner c env others) (id, job) db in
        ((b : SafetyAlert) × (lookup alert after.safety_alerts ≡ some b)
          × Tells r b.delivery_status)
        × (is_some (find_open ContentType.safety_alert alert after.queue) ≡ true)
        × ((row : Job) × (lookup id after.jobs ≡ some row)
            × IsTold env s (suc job.attempt_count) r row)
  alert_and_job_agree alert booking db a foreign kind about budget loaded open_ here was =
      let attempt = suc job.attempt_count in
      let p = handle c env alert attempt db in
      let ((b, found, is), queued) = handle_marks c foreign env alert attempt db a loaded open_ in
      let run = alert_handled alert booking db kind about in
      let kept = ap (λ q. q.1) run ∙ record_outcome-jobs env s id attempt (forget p.0) p.1 in
      (
        (
          b,
          ap (λ (d : Db). lookup alert d.safety_alerts) kept ∙ found,
          subst (λ q. Tells q b.delivery_status) (sym (ap (λ q. q.0) run))
              (elim is [
                | inl (d, st) ↦ inl (
                  ap (λ r. (record_outcome env s id attempt (forget r) p.1).0) d
                      ∙ record_outcome_ok env s id attempt p.1,
                  inl st,
                )
                | inr (inl (d, st)) ↦ inl (
                  ap (λ r. (record_outcome env s id attempt (forget r) p.1).0) d
                      ∙ record_outcome_ok env s id attempt p.1,
                  inr st,
                )
                | inr (inr (x, e, how)) ↦
                    let same = ap (λ r. (record_outcome env s id attempt (forget r) p.1).0) e in
                    elim (record_outcome_err env s id attempt x p.1) [
                      | inl (dead, spent) ↦ elim how [
                        | inl (failed, _) ↦ inr (inl (same ∙ dead, failed))
                        | inr (_, more) ↦ absurd (omega (arith, spent, more, budget))
                      ]
                      | inr (again, more) ↦ elim how [
                        | inl (failed, _) ↦ inr (inr (same ∙ again, inr failed))
                        | inr (trying, _) ↦ inr (inr (same ∙ again, inl trying))
                      ]
                    ]
              ]),
        ),
        ap (λ (d : Db). is_some (find_open ContentType.safety_alert alert d.queue)) kept ∙ queued,
        subst
            (λ (q : Result Worker.Outcome × Db).
              (row : Job) × (lookup id q.1.jobs ≡ some row) × IsTold env s attempt q.0 row)
            (sym run)
            (record_outcome-IsTold env s id (forget p.0) job p.1
              (ap (lookup id) (handle-KeepsJobs c env alert attempt db) ∙ here) was),
      )

  scan_handled :
      (type : ContentType) (content : ℕ) (db mid : Db) (x : Failure)
      → job.type ≡ JobType.moderation_scan
      → job.payload ≡ Payload.content_ref type content
      → process_scan scanner env type content db ≡ (err x, mid)
      → process_claimed_job env s (registry scanner c env others) (id, job) db
        ≡ record_outcome env s id (suc job.attempt_count) (err x) mid
  unfolding process_claimed_job Worker.handle moderation_scan
  scan_handled type content db mid x kind about e = ground arith

  -- A job of a scan whose classifier fails is retried, or dead on the last attempt of its budget,
  -- and no table but the outbox is written. The job's row, which was pending as it was claimed, says
  -- the same, with the attempt counted: dead with the reason, or pending with attempts left, due
  -- within the longest delay from now.
  pub scan_outage_defers :
      (type : ContentType) (content : ℕ) (db mid : Db) (x : Failure)
      → job.type ≡ JobType.moderation_scan
      → job.payload ≡ Payload.content_ref type content
      → process_scan scanner env type content db ≡ (err x, mid)
      → lookup id db.jobs ≡ some job
      → job.status ≡ JobStatus.pending
      → let (r, after) = process_claimed_job env s (registry scanner c env others) (id, job) db in
        (((r ≡ ok Worker.Outcome.dead_lettered) × (s.max_attempts ≤ suc job.attempt_count))
          ⊎ ((r ≡ ok Worker.Outcome.retried) × (suc (suc job.attempt_count) ≤ s.max_attempts)))
        × (after ≡ record db { jobs = after.jobs })
        × ((row : Job) × (lookup id after.jobs ≡ some row)
            × IsTold env s (suc job.attempt_count) r row)
  scan_outage_defers type content db mid x kind about e here was =
      let attempt = suc job.attempt_count in
      let run = scan_handled type content db mid x kind about e in
      let (same, _) = process_scan_failed scanner env type content db mid x e in
      let run' = run ∙ ap (λ (d : Db). record_outcome env s id attempt (err x) d) same in
      (
        elim (record_outcome_err env s id attempt x db) [
          | inl (dead, spent) ↦ inl (ap (λ q. q.0) run' ∙ dead, spent)
          | inr (again, more) ↦ inr (ap (λ q. q.0) run' ∙ again, more)
        ],
        subst (λ (d : Db). d ≡ record db { jobs = d.jobs }) (sym (ap (λ q. q.1) run'))
            (record_outcome-jobs env s id attempt (err x) db),
        subst
            (λ (q : Result Worker.Outcome × Db).
              (row : Job) × (lookup id q.1.jobs ≡ some row) × IsTold env s attempt q.0 row)
            (sym run') (record_outcome-IsTold env s id (err x) job db here was),
      )
