-- ===== src/Privacy/Service.antt =====
-- src/modules/privacy/service.js: the requests of users, and the jobs of the worker that they
-- defer. `now` is Node's clock, which the callers pass on.
use homeplate.Base.{ℕ, ◌+◌, ◌*◌, Bool, true, false, Option, none, some, ltb, if◌then◌else◌, is_some}
use homeplate.Database.{
  Env, Tx, ◌>>=◌, ◌>>◌, pure, throw_if, query, some_or_throw, with_transaction, Failure,
  DataRequest, Detail, RequestKind, RequestStatus, RequestCopy, Rewritten, User, JobType, Payload,
  ErasureReason, DedupeKey,
}
use homeplate.Outbox.Enqueue.{enqueue}
use homeplate.Auth.Sessions.{Scan, destroy_sessions_for_user}
use homeplate.Privacy.Requests.{
  no_detail, serialize_request, create_request, find_request_by_id, find_open_request,
  mark_request_processing, complete_request, merge_request_detail, get_user, mark_deleted, is_gone,
}
use homeplate.Privacy.Erasing.{
  erase_user_row, sever_author_references, scrub_listings, clear_host_profile,
  delete_verification_tokens, wipe_export_details,
}

abbrev pub day_ms : ℕ
day_ms = 24 * 3600 * 1000

abbrev pub add_days : ℕ → ℕ → ℕ
add_days from days = from + days * day_ms

-- config.privacy
pub record Windows : Type 0 where
  pub erasure_days : ℕ
  pub inactivity_months : ℕ

-- The row that was found, or a new one, and whether it was there.
abbrev pub open_found :
    Env → (user erasure_at : ℕ) → Option (ℕ × DataRequest) → Tx ((ℕ × DataRequest) × Bool)
open_found env user erasure_at (some row) = pure (row, true)
open_found env user erasure_at none =
    create_request env user RequestKind.erasure erasure_at
      (record no_detail { requested_at = some env.date_now })
    >>= λ row. pure (row, false)

unfoldable pub open_erasure_request : Env → (user erasure_at : ℕ) → Tx ((ℕ × DataRequest) × Bool)
open_erasure_request env user erasure_at =
    query (find_open_request user RequestKind.erasure) >>= open_found env user erasure_at

abbrev pub mark_and_open : Env → Windows → ℕ → Option User → Tx ((ℕ × DataRequest) × Bool)
mark_and_open env w user found =
    throw_if (is_gone found) Failure.not_found
    >> mark_deleted user env.date_now
    >> open_erasure_request env user (add_days env.date_now w.erasure_days)

abbrev pub schedule_erasure : Env → ℕ → (ℕ × DataRequest) × Bool → Tx (ℕ × DataRequest)
schedule_erasure env user opened =
    enqueue env JobType.account_erasure (Payload.erasure_ref user opened.0.0 ErasureReason.deletion)
      (some (DedupeKey.erasure_deletion user)) (some opened.0.1.due_at)
    >> pure opened.0

-- The body of the transaction.
unfoldable pub mark_and_schedule : Env → Windows → ℕ → Tx (ℕ × DataRequest)
mark_and_schedule env w user =
    query (get_user user) >>= mark_and_open env w user >>= schedule_erasure env user

abbrev pub end_sessions : Env → Scan → ℕ → Option ℕ → ℕ × DataRequest → Tx (RequestCopy × ℕ)
end_sessions env scan user token row =
    destroy_sessions_for_user env scan user token >> pure (serialize_request row, row.1.due_at)

-- The request with the instant of the erasure.
unfoldable pub request_deletion :
    Env → Windows → Scan → (user : ℕ) → (token : Option ℕ) → Tx (RequestCopy × ℕ)
request_deletion env w scan user token =
    with_transaction (mark_and_schedule env w user) >>= end_sessions env scan user token

-- What the transport answers, if it does.
pub record Notice : Type 0 where
  pub sent : Bool
  pub attempt_id : ℕ

-- The functions that the handler injects.
pub record Deps : Type 0 where
  pub delete_media : ℕ → Tx ℕ
  pub send_notice : (user request : ℕ) → Tx (Option Notice)

pub data Phase : Type 0 where
  already_done : RequestStatus → Phase
  already_anonymized : Phase
  notice_sent : ℕ → Phase
  cancelled : Phase
  erased : ℕ → Phase

abbrev pub is_settled : RequestStatus → Bool
is_settled RequestStatus.completed = true
is_settled RequestStatus.failed = true
is_settled _ = false

-- !result || result.status !== 'sent'
abbrev pub undelivered : Option Notice → Bool
undelivered none = true
undelivered (some n) = if n.sent then false else true

abbrev pub attempt_of : Option Notice → Option ℕ
attempt_of none = none
attempt_of (some n) = some n.attempt_id

-- What the notice leaves with the request.
abbrev pub notice_evidence : Env → Windows → Option Notice → Detail
notice_evidence env w result = record no_detail {
  notice_sent_at = some env.date_now;
  notice_attempt_id = attempt_of result;
  erasure_scheduled_at = some (add_days env.date_now w.erasure_days);
}

-- With the transport's answer: the request records the notice, and then the job of the erasure is
-- enqueued for one window later.
abbrev pub record_and_schedule : Env → Windows → (user request : ℕ) → Option Notice → Tx Phase
record_and_schedule env w user request result =
    throw_if (undelivered result) Failure.inactivity_notice_undelivered
    >> merge_request_detail request (notice_evidence env w result)
    >> with_transaction (
        enqueue env JobType.account_erasure
          (Payload.erasure_ref user request ErasureReason.inactivity)
          (some (DedupeKey.erasure_final request)) (some (add_days env.date_now w.erasure_days)))
    >> pure (Phase.notice_sent (add_days env.date_now w.erasure_days))

-- Phase 1 of an inactive account.
unfoldable pub send_and_schedule : Env → Windows → Deps → (user request : ℕ) → Tx Phase
send_and_schedule env w deps user request =
    deps.send_notice user request >>= record_and_schedule env w user request

-- A request that needs no erasure is completed, with the reason.
unfoldable pub close_request : Env → (request : ℕ) → Detail → Phase → Tx Phase
close_request env request detail phase =
    with_transaction (complete_request request env.date_now detail) >> pure phase

abbrev pub erasure_evidence : ℕ → Rewritten → ℕ → Detail
erasure_evidence media rewritten listings = record no_detail {
  erased = some true;
  media_objects_deleted = some media;
  rewritten = some rewritten;
  listings_scrubbed = some listings;
}

-- The transaction that empties the account.
unfoldable pub erase_rows : Env → (user request media : ℕ) → Tx (Option DataRequest)
erase_rows env user request media =
    erase_user_row user env.date_now >> sever_author_references user >>= λ rewritten.
    scrub_listings user >>= λ listings.
    clear_host_profile user
    >> delete_verification_tokens user
    >> wipe_export_details user
    >> complete_request request env.date_now (erasure_evidence media rewritten listings)

abbrev pub erase_with : Env → Scan → (user request media : ℕ) → Tx Phase
erase_with env scan user request media =
    with_transaction (erase_rows env user request media)
    >> destroy_sessions_for_user env scan user none
    >> pure (Phase.erased media)

-- The media first, outside of the transaction.
unfoldable pub erase : Env → Deps → Scan → (user request : ℕ) → Tx Phase
erase env deps scan user request =
    mark_request_processing request >> deps.delete_media user >>= erase_with env scan user request

-- An inactive account: the notice first, and then the erasure of one that stayed inactive.
unfoldable pub erase_inactive :
    Env → Windows → Deps → Scan → (user request : ℕ) → DataRequest → User → Tx Phase
erase_inactive env w deps scan user request r u =
    if is_some r.detail.notice_sent_at
    then (if ltb r.created_at u.last_active_at
        then close_request env request (record no_detail { cancelled = some "user_active_again" })
            Phase.cancelled
        else erase env deps scan user request)
    else send_and_schedule env w deps user request

abbrev pub erase_by_reason :
    Env → Windows → Deps → Scan → (user request : ℕ) → ErasureReason → DataRequest → User → Tx Phase
erase_by_reason env w deps scan user request ErasureReason.deletion r u =
    erase env deps scan user request
erase_by_reason env w deps scan user request ErasureReason.inactivity r u =
    erase_inactive env w deps scan user request r u

abbrev pub erase_unless_anonymized :
    Env
    → Windows
    → Deps
    → Scan
    → (user request : ℕ) → ErasureReason
    → DataRequest
    → Option User
    → Tx Phase
erase_unless_anonymized env w deps scan user request reason r none =
    close_request env request (record no_detail { already_anonymized = some true })
      Phase.already_anonymized
erase_unless_anonymized env w deps scan user request reason r (some u) =
    if is_some u.anonymized_at
    then close_request env request (record no_detail { already_anonymized = some true })
        Phase.already_anonymized
    else erase_by_reason env w deps scan user request reason r u

abbrev pub erase_unless_settled :
    Env → Windows → Deps → Scan → (user request : ℕ) → ErasureReason → DataRequest → Tx Phase
erase_unless_settled env w deps scan user request reason r =
    if is_settled r.status
    then pure (Phase.already_done r.status)
    else (query (get_user user) >>= erase_unless_anonymized env w deps scan user request reason r)

-- The job 'account.erasure'.
unfoldable pub process_erasure :
    Env → Windows → Deps → Scan → (user request : ℕ) → ErasureReason → Tx Phase
process_erasure env w deps scan user request reason =
    query (find_request_by_id request)
    >>= (λ found. some_or_throw found Failure.not_found)
    >>= erase_unless_settled env w deps scan user request reason
