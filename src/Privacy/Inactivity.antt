-- ===== src/Privacy/Inactivity.antt =====
-- An inactive account: the notice before any erasure, and the delivery that comes twice.
use homeplate.Base.{
  ℕ, ◌≤◌, ◌≡◌, refl, sym, ap, ◌∙◌, true, false, some, arith, inl, inr, Bool-cases, is_some, ltb,
}
use mathlib.Core.Path.{subst}
use homeplate.Table.{Table, lookup}
use homeplate.Table.Updates.{lookup-modify_hit}
use homeplate.Database.{Job, Db, Env, ok, User, DataRequest, DedupeKey, ErasureReason, >>=_inv}
use homeplate.Outbox.Keys.{has_key, Extends}
use homeplate.Auth.Sessions.{Scan}
use homeplate.Privacy.Requests.{find_request_by_id, get_user, with_detail}
use homeplate.Privacy.Service.{
  Deps, Windows, Phase, process_erasure, erase_inactive, erase, send_and_schedule,
  record_and_schedule, undelivered, is_settled, add_days, notice_evidence,
}
use homeplate.Privacy.Erasure.{processing, erase_ok}
use homeplate.Privacy.Notice.{
  IsNoticeOnly, FinalJob, noticed_db, record_and_schedule_ok, notice_sent_inv,
}

module _ (env : Env) (w : Windows) (deps : Deps) (scan : Scan) (user request : ℕ) where
  -- The request that the notice was sent for, with its job.
  abbrev pub Noticed : DataRequest → Db → Type 0
  Noticed r db =
      (lookup request db.data_requests ≡ some r)
      × (r.detail.notice_sent_at ≡ some env.date_now)
      × (r.detail.erasure_scheduled_at ≡ some (add_days env.date_now w.erasure_days))
      × (has_key (DedupeKey.erasure_final request) db.jobs ≡ true)

  -- What the first phase has done when it returns.
  send_and_schedule_inv :
      (r : DataRequest) (db mid : Db) (phase : Phase)
      → IsNoticeOnly deps
      → lookup request db.data_requests ≡ some r
      → send_and_schedule env w deps user request db ≡ (ok phase, mid)
      → (phase ≡ Phase.notice_sent (add_days env.date_now w.erasure_days))
        × (mid.users ≡ db.users)
        × Extends (FinalJob env w user request) db.jobs mid.jobs
        × ((s : DataRequest) × Noticed s mid
            × (s.status ≡ r.status)
            × (s.created_at ≡ r.created_at))
  unfolding send_and_schedule
  send_and_schedule_inv r db mid phase notice_only found ran =
      let (result, told, sent, rest) =
        >>=_inv (deps.send_notice user request) (record_and_schedule env w user request) ran in
      let written : told ≡ record db { notification_attempts = told.notification_attempts } =
        subst (λ (d : Db). d ≡ record db { notification_attempts = d.notification_attempts })
          (ap (λ q. q.1) sent) (notice_only user request db) in
      elim (Bool-cases (undelivered result)) [
        | inl failed ↦ absurd (ground (arith, rest))
        | inr delivered ↦
            let (jobs, next, did, queued, keeps) =
              record_and_schedule_ok env w user request result told delivered in
            let same = sym rest ∙ did in
            let is : mid ≡ noticed_db env w user request result jobs next told =
              ap (λ q. q.1) same in
            let change = with_detail (notice_evidence env w result) in
            let there : lookup request told.data_requests ≡ some r =
              ap (λ (d : Db). lookup request d.data_requests) written ∙ found in
            (
              ground (arith, same),
              ap (λ (d : Db). d.users) is ∙ ap (λ (d : Db). d.users) written,
              subst (λ (t : Table Job). Extends (FinalJob env w user request) t mid.jobs)
                  (ap (λ (d : Db). d.jobs) written)
                  (subst (λ (t : Table Job). Extends (FinalJob env w user request) told.jobs t)
                    (sym (ap (λ (d : Db). d.jobs) is)) keeps),
              (
                change r,
                (
                  ap (λ (d : Db). lookup request d.data_requests) is
                      ∙ lookup-modify_hit request change told.data_requests there,
                  refl,
                  refl,
                  ap (λ (d : Db). has_key (DedupeKey.erasure_final request) d.jobs) is ∙ queued,
                ),
                refl,
                refl,
              ),
            )
      ]

  -- The second phase, for an account that stayed inactive.
  process_erasure_due :
      (s : DataRequest) (u : User) (db : Db)
      → lookup request db.data_requests ≡ some s
      → lookup user db.users ≡ some u
      → is_settled s.status ≡ false
      → is_some u.anonymized_at ≡ false
      → is_some s.detail.notice_sent_at ≡ true
      → ltb s.created_at u.last_active_at ≡ false
      → process_erasure env w deps scan user request ErasureReason.inactivity db
        ≡ erase env deps scan user request db
  unfolding process_erasure erase_inactive find_request_by_id get_user
  process_erasure_due s u db found there open_ kept sent inactive = ground arith

  -- The delivery of an inactivity job for an open request with no notice yet, and an account that
  -- is not anonymized, erases nothing, given that the transport writes no table but that of its
  -- attempts: when it returns, the users are as they were, the request says when the notice went
  -- out and that the erasure is due a window later, no job is lost, and the key of that erasure has a
  -- job: the one that it had before, or a new one for this user and request that is due then.
  pub inactivity_notice_first :
      (r : DataRequest) (u : User) (db mid : Db) (phase : Phase)
      → IsNoticeOnly deps
      → lookup request db.data_requests ≡ some r
      → lookup user db.users ≡ some u
      → is_settled r.status ≡ false
      → is_some u.anonymized_at ≡ false
      → is_some r.detail.notice_sent_at ≡ false
      → process_erasure env w deps scan user request ErasureReason.inactivity db ≡ (ok phase, mid)
      → (phase ≡ Phase.notice_sent (add_days env.date_now w.erasure_days))
        × (mid.users ≡ db.users)
        × Extends (FinalJob env w user request) db.jobs mid.jobs
        × ((s : DataRequest) × Noticed s mid
            × (s.status ≡ r.status)
            × (s.created_at ≡ r.created_at))
  unfolding process_erasure erase_inactive find_request_by_id get_user
  inactivity_notice_first r u db mid phase notice_only found there open_ kept unsent ran =
      send_and_schedule_inv r db mid phase notice_only found (ground (arith, ran))

-- A second delivery of a job whose first delivery sent the notice erases the account, whenever
-- it comes, be it before the window of the notice is over: given that the transport writes no
-- table but that of its attempts, that the account was not active since its flag, and that the
-- media can be deleted.
pub second_delivery_erases :
    (env : Env) (w : Windows) (deps : Deps) (scan : Scan) (user request : ℕ) (later : Env)
    (at media : ℕ) (r : DataRequest) (u : User) (db mid last : Db)
    → IsNoticeOnly deps
    → lookup request db.data_requests ≡ some r
    → lookup user db.users ≡ some u
    → is_some u.anonymized_at ≡ false
    → u.last_active_at ≤ r.created_at
    → process_erasure env w deps scan user request ErasureReason.inactivity db
      ≡ (ok (Phase.notice_sent at), mid)
    → deps.delete_media user (processing later deps scan user request mid) ≡ (ok media, last)
    → (process_erasure later w deps scan user request ErasureReason.inactivity mid).0
      ≡ ok (Phase.erased media)
second_delivery_erases env w deps scan user request later at media r u db mid last notice_only found
      there kept still ran gone =
    let (open_, did) =
      notice_sent_inv env w deps scan user request at r u db mid found there kept ran in
    let (_, users, _, (s, (now_there, noted, _, _), status, created)) =
      send_and_schedule_inv env w deps scan user request r db mid (Phase.notice_sent at) notice_only
        found did in
    let same_user : lookup user mid.users ≡ some u = ap (lookup user) users ∙ there in
    let open_still = ap is_settled status ∙ open_ in
    let erased = erase_ok later deps scan user request mid last media gone in
    let inactive : ltb s.created_at u.last_active_at ≡ false = ground arith in
    ap (λ q. q.0)
      (process_erasure_due later w deps scan user request s u mid now_there same_user open_still
          kept (ap is_some noted) inactive
        ∙ erased)
