-- ===== src/System/Accounts.antt =====
-- The seats under the privacy service (src/modules/privacy), which takes and frees none.
use homeplate.Base.{
  ℕ, refl, sym, ap, Option, none, some, arith, Bool, inl, inr, Option-cases, true, is_some, ltb,
  if◌then◌else◌,
}
use mathlib.Core.Path.{subst}
use homeplate.Database.{
  Db, Env, Tx, ◌>>=◌, ◌>>◌, pure, query, throw_if, some_or_throw, with_transaction, User,
  DataRequest, Failure, JobType, Payload, DedupeKey, ErasureReason, Detail, RequestKind,
}
use homeplate.Outbox.Enqueue.{enqueue}
use homeplate.Auth.Sessions.{Scan, destroy_sessions_for_user}
use homeplate.Auth.Revocation.{destroy_sessions-ok}
use homeplate.Bookings.Seats.{IsSound, same_tables-IsSound}
use homeplate.Privacy.Requests.{
  get_user, is_gone, mark_deleted, create_request, find_open_request, no_detail, serialize_request,
  find_request_by_id, mark_request_processing, merge_request_detail, complete_request,
}
use homeplate.Privacy.Service.{
  Deps, Windows, Phase, Notice, process_erasure, request_deletion, mark_and_schedule, erase_rows,
  mark_and_open, schedule_erasure, end_sessions, erase_with, erase_unless_settled,
  open_erasure_request, open_found, add_days, erase, erase_inactive, send_and_schedule,
  record_and_schedule, undelivered, notice_evidence, close_request, erase_by_reason,
  erase_unless_anonymized, is_settled,
}
use homeplate.Privacy.Forgetting.{erase_rows_ok, emptied_db}
use homeplate.Privacy.Erasure.{close_request_phase}
use homeplate.Privacy.Notice.{IsNoticeOnly}
use homeplate.Media.Service.{Storage}
use homeplate.Handlers.{erasure_deps}
use homeplate.Handlers.Erasing.{erasure_deps-IsMediaOnly}
use homeplate.System.Sound.{
  KeepsSound, bind-KeepsSound, then-KeepsSound, transaction-KeepsSound, enqueue-KeepsSound,
  apart-KeepsSound, if-KeepsSound, scrubbed-IsSound, some_or_throw-KeepsSound,
}

pub destroy-KeepsSound :
    (env : Env) (scan : Scan) (user : ℕ) (current : Option ℕ)
    → KeepsSound (destroy_sessions_for_user env scan user current)
destroy-KeepsSound env scan user current =
    apart-KeepsSound (destroy_sessions_for_user env scan user current) (λ db.
      let (n, e) = destroy_sessions-ok env scan user current db in
      (ap (λ q. q.1.listings) e, ap (λ q. q.1.bookings) e, omega (arith, ap (λ q. q.1.next_id) e)))

open_request-KeepsSound : (env : Env) (user at : ℕ) → KeepsSound (open_erasure_request env user at)
unfolding open_erasure_request create_request
open_request-KeepsSound env user at db v =
    elim (Option-cases (find_open_request user RequestKind.erasure db)) [
      | inl gone ↦
          subst (λ (o : Option (ℕ × DataRequest)). IsSound (open_found env user at o db).1)
            (sym gone)
            (same_tables-IsSound db (open_found env user at none db).1 refl refl (omega arith) v)
      | inr (row, found) ↦
          subst (λ (o : Option (ℕ × DataRequest)). IsSound (open_found env user at o db).1)
            (sym found) v
    ]

mark_and_open-KeepsSound :
    (env : Env) (w : Windows) (user : ℕ) (found : Option User)
    → KeepsSound (mark_and_open env w user found)
unfolding mark_deleted
mark_and_open-KeepsSound env w user found =
    let at = add_days env.date_now w.erasure_days in
    let refuse = throw_if (is_gone found) Failure.not_found in
    let marks = mark_deleted user env.date_now in
    then-KeepsSound (refuse >> marks) (open_erasure_request env user at)
      (then-KeepsSound refuse marks (λ db v. v)
        (apart-KeepsSound marks (λ db. (refl, refl, omega arith))))
      (open_request-KeepsSound env user at)

schedule_erasure-KeepsSound :
    (env : Env) (user : ℕ) (opened : (ℕ × DataRequest) × Bool)
    → KeepsSound (schedule_erasure env user opened)
schedule_erasure-KeepsSound env user opened =
    let payload = Payload.erasure_ref user opened.0.0 ErasureReason.deletion in
    let key = DedupeKey.erasure_deletion user in
    then-KeepsSound
      (enqueue env JobType.account_erasure payload (some key) (some opened.0.1.due_at))
      (pure opened.0)
      (enqueue-KeepsSound env JobType.account_erasure payload key (some opened.0.1.due_at))
      (λ db v. v)

pub request_deletion-KeepsSound :
    (env : Env) (w : Windows) (scan : Scan) (user : ℕ) (token : Option ℕ)
    → KeepsSound (request_deletion env w scan user token)
unfolding request_deletion mark_and_schedule
request_deletion-KeepsSound env w scan user token =
    let reads = query (get_user user) in
    bind-KeepsSound (with_transaction (mark_and_schedule env w user))
      (end_sessions env scan user token)
      (transaction-KeepsSound (mark_and_schedule env w user) (
        bind-KeepsSound (reads >>= mark_and_open env w user) (schedule_erasure env user)
          (bind-KeepsSound reads (mark_and_open env w user) (λ db v. v)
            (mark_and_open-KeepsSound env w user))
          (schedule_erasure-KeepsSound env user)))
      (λ row.
        then-KeepsSound (destroy_sessions_for_user env scan user token)
          (pure (serialize_request row, row.1.due_at)) (destroy-KeepsSound env scan user token)
          (λ db v. v))

completes-KeepsSound :
    (env : Env) (request : ℕ) (detail : Detail)
    → KeepsSound (complete_request request env.date_now detail)
unfolding complete_request
completes-KeepsSound env request detail =
    apart-KeepsSound (complete_request request env.date_now detail)
      (λ db. (refl, refl, omega arith))

erase_rows-KeepsSound :
    (env : Env) (user request media : ℕ) → KeepsSound (erase_rows env user request media)
erase_rows-KeepsSound env user request media db v =
    let (row, e) = erase_rows_ok env user request media db in
    subst (λ p. IsSound p.1) (sym e)
      (same_tables-IsSound _ (emptied_db env user request media db) refl refl (omega arith)
        (scrubbed-IsSound user db v))

module _ (env : Env) (w : Windows) (deps : Deps) (scan : Scan) (user request : ℕ)
    (media : KeepsSound (deps.delete_media user))
    (notice : KeepsSound (deps.send_notice user request)) where
  erase-KeepsSound : KeepsSound (erase env deps scan user request)
  unfolding erase mark_request_processing
  erase-KeepsSound =
      let marks = mark_request_processing request in
      bind-KeepsSound (marks >> deps.delete_media user) (erase_with env scan user request)
        (then-KeepsSound marks (deps.delete_media user)
          (apart-KeepsSound marks (λ db. (refl, refl, omega arith))) media)
        (λ n.
          let rows = with_transaction (erase_rows env user request n) in
          let ends = destroy_sessions_for_user env scan user none in
          then-KeepsSound (rows >> ends) (pure (Phase.erased n))
            (then-KeepsSound rows ends
              (transaction-KeepsSound (erase_rows env user request n)
                (erase_rows-KeepsSound env user request n))
              (destroy-KeepsSound env scan user none))
            (λ db v. v))

  close-KeepsSound :
      (detail : Detail) (phase : Phase) → KeepsSound (close_request env request detail phase)
  close-KeepsSound detail phase db v =
      subst (λ p. IsSound p.1) (sym (close_request_phase env request detail phase db))
        (completes-KeepsSound env request detail db v)

  send-KeepsSound : KeepsSound (send_and_schedule env w deps user request)
  unfolding send_and_schedule merge_request_detail
  send-KeepsSound =
      bind-KeepsSound (deps.send_notice user request) (record_and_schedule env w user request)
        notice
        (λ result.
          let at = add_days env.date_now w.erasure_days in
          let payload = Payload.erasure_ref user request ErasureReason.inactivity in
          let key = DedupeKey.erasure_final request in
          let refuse = throw_if (undelivered result) Failure.inactivity_notice_undelivered in
          let merges = merge_request_detail request (notice_evidence env w result) in
          let queues =
            with_transaction (enqueue env JobType.account_erasure payload (some key) (some at)) in
          then-KeepsSound (refuse >> merges >> queues) (pure (Phase.notice_sent at))
            (then-KeepsSound (refuse >> merges) queues
              (then-KeepsSound refuse merges (λ db v. v)
                (apart-KeepsSound merges (λ db. (refl, refl, omega arith))))
              (transaction-KeepsSound
                (enqueue env JobType.account_erasure payload (some key) (some at))
                (enqueue-KeepsSound env JobType.account_erasure payload key (some at))))
            (λ db v. v))

  inactive-KeepsSound :
      (r : DataRequest) (u : User) → KeepsSound (erase_inactive env w deps scan user request r u)
  unfolding erase_inactive
  inactive-KeepsSound r u =
      let cancels =
        close_request env request (record no_detail { cancelled = some "user_active_again" })
          Phase.cancelled in
      if-KeepsSound (is_some r.detail.notice_sent_at)
        (if ltb r.created_at u.last_active_at then cancels else erase env deps scan user request)
        (send_and_schedule env w deps user request)
        (if-KeepsSound (ltb r.created_at u.last_active_at) cancels
          (erase env deps scan user request)
          (close-KeepsSound (record no_detail { cancelled = some "user_active_again" })
            Phase.cancelled)
          erase-KeepsSound)
        send-KeepsSound

  by_reason-KeepsSound :
      (reason : ErasureReason) (r : DataRequest) (u : User)
      → KeepsSound (erase_by_reason env w deps scan user request reason r u)
  by_reason-KeepsSound ErasureReason.deletion r u = erase-KeepsSound
  by_reason-KeepsSound ErasureReason.inactivity r u = inactive-KeepsSound r u

  unless_anonymized-KeepsSound :
      (reason : ErasureReason) (r : DataRequest) (found : Option User)
      → KeepsSound (erase_unless_anonymized env w deps scan user request reason r found)
  unless_anonymized-KeepsSound reason r none =
      close-KeepsSound (record no_detail { already_anonymized = some true })
        Phase.already_anonymized
  unless_anonymized-KeepsSound reason r (some u) =
      if-KeepsSound (is_some u.anonymized_at)
        (close_request env request (record no_detail { already_anonymized = some true })
          Phase.already_anonymized)
        (erase_by_reason env w deps scan user request reason r u)
        (close-KeepsSound (record no_detail { already_anonymized = some true })
          Phase.already_anonymized)
        (by_reason-KeepsSound reason r u)

  pub process_erasure-KeepsSound :
      (reason : ErasureReason) → KeepsSound (process_erasure env w deps scan user request reason)
  unfolding process_erasure
  process_erasure-KeepsSound reason =
      let reads = query (find_request_by_id request) in
      let demand : Option DataRequest → Tx DataRequest =
        λ found. some_or_throw found Failure.not_found in
      bind-KeepsSound (reads >>= demand) (erase_unless_settled env w deps scan user request reason)
        (bind-KeepsSound reads demand (λ db v. v)
          (λ found. some_or_throw-KeepsSound found Failure.not_found))
        (λ r.
          if-KeepsSound (is_settled r.status) (pure (Phase.already_done r.status))
            (query (get_user user)
              >>= erase_unless_anonymized env w deps scan user request reason r)
            (λ db v. v)
            (bind-KeepsSound (query (get_user user))
              (erase_unless_anonymized env w deps scan user request reason r) (λ db v. v)
              (unless_anonymized-KeepsSound reason r)))

-- With the media service, and with a transport that writes no table but that of its attempts.
pub process_erasure-IsSound :
    (env : Env) (w : Windows) (works : Storage) (send : (user request : ℕ) → Tx (Option Notice))
    (scan : Scan) (user request : ℕ) (reason : ErasureReason)
    → IsNoticeOnly (erasure_deps works send)
    → KeepsSound (process_erasure env w (erasure_deps works send) scan user request reason)
process_erasure-IsSound env w works send scan user request reason notice_only =
    let deps = erasure_deps works send in
    process_erasure-KeepsSound env w deps scan user request
      (apart-KeepsSound (deps.delete_media user) (λ db.
        let e = erasure_deps-IsMediaOnly works send user db in
        (
          ap (λ (d : Db). d.listings) e,
          ap (λ (d : Db). d.bookings) e,
          omega (arith, ap (λ (d : Db). d.next_id) e),
        )))
      (apart-KeepsSound (send user request) (λ db.
        let e = notice_only user request db in
        (
          ap (λ (d : Db). d.listings) e,
          ap (λ (d : Db). d.bookings) e,
          omega (arith, ap (λ (d : Db). d.next_id) e),
        )))
      reason
