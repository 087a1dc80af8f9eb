-- ===== src/Privacy/Notice.antt =====
-- The two phases of an inactive account's erasure, and what a second delivery of the first does.
use homeplate.Base.{
  refl, ℕ, ◌≡◌, true, false, Option, some, arith, inl, inr, Bool-cases, is_some, ltb,
}
use homeplate.Table.{Table, lookup, modify}
use homeplate.Table.Updates.{update_where-modify}
use homeplate.Database.{
  Db, Env, ok, User, DataRequest, Job, JobType, Payload, DedupeKey, ErasureReason,
  with_transaction_ok,
}
use homeplate.Outbox.Enqueue.{enqueue}
use homeplate.Outbox.Keys.{has_key, Extends, IsQueued, enqueue-Defers}
use homeplate.Auth.Sessions.{Scan}
use homeplate.Privacy.Requests.{
  find_request_by_id, get_user, merge_request_detail, with_detail, no_detail,
}
use homeplate.Privacy.Service.{
  Deps, Windows, Phase, Notice, process_erasure, erase_inactive, erase, send_and_schedule,
  record_and_schedule, undelivered, is_settled, add_days, notice_evidence,
}
use homeplate.Privacy.Erasure.{erase_inv, close_request_phase}

-- What the transport writes: no table but that of its attempts.
abbrev pub IsNoticeOnly : Deps → Type 0
IsNoticeOnly deps =
    (user request : ℕ) (db : Db)
    → let after = (deps.send_notice user request db).1 in
      after ≡ record db { notification_attempts = after.notification_attempts }

module _ (env : Env) (w : Windows) (user request : ℕ) where
  -- The database when the notice is recorded and the last job is in the outbox.
  abbrev pub noticed_db : Option Notice → Table Job → ℕ → Db → Db
  noticed_db result jobs next db = record db {
    data_requests = modify request (with_detail (notice_evidence env w result)) db.data_requests;
    jobs = jobs;
    next_id = next;
  }

  -- The job of the last phase: for this user and request, due when the window of the notice ends.
  abbrev pub FinalJob : DedupeKey → Job → Type 0
  FinalJob =
      IsQueued (DedupeKey.erasure_final request) JobType.account_erasure
        (Payload.erasure_ref user request ErasureReason.inactivity)
        (add_days env.date_now w.erasure_days)

  pub record_and_schedule_ok :
      (result : Option Notice) (db : Db)
      → undelivered result ≡ false
      → (jobs : Table Job) × (next : ℕ) × (record_and_schedule env w user request result db ≡ (
        ok (Phase.notice_sent (add_days env.date_now w.erasure_days)),
        noticed_db result jobs next db,
      ))
        × (has_key (DedupeKey.erasure_final request) jobs ≡ true)
        × Extends FinalJob db.jobs jobs
  unfolding merge_request_detail
  record_and_schedule_ok result db sent =
      let at = add_days env.date_now w.erasure_days in
      let rows =
        update_where-modify request (with_detail (notice_evidence env w result)) db.data_requests in
      let noted : Db = record db {
        data_requests =
            modify request (with_detail (notice_evidence env w result)) db.data_requests;
      } in
      let merged : (merge_request_detail request (notice_evidence env w result) db).1 ≡ noted =
        λ i. record db { data_requests = rows i } in
      let (e, jobs, next, ran, _, keeps, queued) =
        enqueue-Defers FinalJob env JobType.account_erasure
          (Payload.erasure_ref user request ErasureReason.inactivity)
          (DedupeKey.erasure_final request) (some at) noted
          (refl, (refl, refl, refl, refl, refl)) in
      let done =
        with_transaction_ok
          (enqueue env JobType.account_erasure
            (Payload.erasure_ref user request ErasureReason.inactivity)
            (some (DedupeKey.erasure_final request)) (some at))
          ran in
      (jobs, next, ground (arith, sent, merged, done), queued, keeps)

-- A delivery that answers that the notice was sent.
pub notice_sent_inv :
    (env : Env) (w : Windows) (deps : Deps) (scan : Scan) (user request at : ℕ) (r : DataRequest)
    (u : User) (db mid : Db)
    → lookup request db.data_requests ≡ some r
    → lookup user db.users ≡ some u
    → is_some u.anonymized_at ≡ false
    → process_erasure env w deps scan user request ErasureReason.inactivity db
      ≡ (ok (Phase.notice_sent at), mid)
    → (is_settled r.status ≡ false)
      × (send_and_schedule env w deps user request db ≡ (ok (Phase.notice_sent at), mid))
unfolding process_erasure erase_inactive find_request_by_id get_user
notice_sent_inv env w deps scan user request at r u db mid found there kept ran =
    elim (Bool-cases (is_settled r.status)) [
      | inl settled ↦ absurd (ground (arith, ran))
      | inr open_ ↦ elim (Bool-cases (is_some r.detail.notice_sent_at)) [
        | inr unsent ↦ (open_, ground (arith, ran))
        | inl sent ↦ elim (Bool-cases (ltb r.created_at u.last_active_at)) [
          | inl active ↦ absurd (
              ground (
                arith,
                ran,
                close_request_phase env request
                    (record no_detail { cancelled = some "user_active_again" }) Phase.cancelled db,
              ))
          | inr still ↦
              let did : erase env deps scan user request db ≡ (ok (Phase.notice_sent at), mid) =
                ground (arith, ran) in
              let (m, _, _, phase, _) = erase_inv env deps scan user request db mid _ did in
              absurd (ground (arith, phase))
        ]
      ]
    ]
