-- ===== src/Privacy/Requests.antt =====
-- src/modules/privacy/repo.js: the statements on data_requests, and those of the deletion mark.
use homeplate.Base.{
  ℕ, suc, Bool, true, false, ◌&&◌, Option, none, some, [], ◌∷◌, ◌==◌, if◌then◌else◌, leb, ltb,
  String, is_some,
}
use homeplate.Table.{Table, lookup, update_where, select}
use homeplate.Database.{
  Db, Env, Tx, ok, DataRequest, Detail, RequestKind, RequestStatus, RequestCopy, User,
}

-- '{}'
abbrev pub no_detail : Detail
no_detail = record {
  requested_at = none;
  flagged_at = none;
  notice_sent_at = none;
  notice_attempt_id = none;
  erasure_scheduled_at = none;
  already_anonymized = none;
  cancelled = none;
  erased = none;
  media_objects_deleted = none;
  rewritten = none;
  listings_scrubbed = none;
  failed_reason = none;
  export = none;
  generated_at = none;
}

-- COALESCE(a, b)
abbrev pub or_else : {A : Type 0} → Option A → Option A → Option A
or_else none b = b
or_else (some a) b = some a

-- detail || more: the keys of the second are put over those of the first.
abbrev pub merge_detail : Detail → Detail → Detail
merge_detail old more = record {
  requested_at = or_else more.requested_at old.requested_at;
  flagged_at = or_else more.flagged_at old.flagged_at;
  notice_sent_at = or_else more.notice_sent_at old.notice_sent_at;
  notice_attempt_id = or_else more.notice_attempt_id old.notice_attempt_id;
  erasure_scheduled_at = or_else more.erasure_scheduled_at old.erasure_scheduled_at;
  already_anonymized = or_else more.already_anonymized old.already_anonymized;
  cancelled = or_else more.cancelled old.cancelled;
  erased = or_else more.erased old.erased;
  media_objects_deleted = or_else more.media_objects_deleted old.media_objects_deleted;
  rewritten = or_else more.rewritten old.rewritten;
  listings_scrubbed = or_else more.listings_scrubbed old.listings_scrubbed;
  failed_reason = or_else more.failed_reason old.failed_reason;
  export = or_else more.export old.export;
  generated_at = or_else more.generated_at old.generated_at;
}

unfoldable pub serialize_request : ℕ × DataRequest → RequestCopy
serialize_request (i, r) = record {
  id = i;
  kind = r.kind;
  status = r.status;
  due_at = r.due_at;
  completed_at = r.completed_at;
  created_at = r.created_at;
}

abbrev pub new_request : Env → ℕ → RequestKind → ℕ → Detail → DataRequest
new_request env user kind due detail = record {
  user_id = user;
  kind = kind;
  status = RequestStatus.pending;
  due_at = due;
  completed_at = none;
  detail = detail;
  created_at = env.now;
}

unfoldable pub create_request : Env → ℕ → RequestKind → ℕ → Detail → Tx (ℕ × DataRequest)
create_request env user kind due detail db =
    let r = new_request env user kind due detail in
    (
      ok (db.next_id, r),
      record db { data_requests = (db.next_id, r) ∷ db.data_requests; next_id = suc db.next_id },
    )

unfoldable pub find_request_by_id : ℕ → Db → Option DataRequest
find_request_by_id id db = lookup id db.data_requests

unfoldable pub find_request_for_user : ℕ → ℕ → Db → Option DataRequest
find_request_for_user id user db = elim (lookup id db.data_requests) [
  | none ↦ none
  | some r ↦ if r.user_id == user then some r else none
]

-- status IN ('pending', 'processing')
abbrev pub is_open : RequestStatus → Bool
is_open RequestStatus.pending = true
is_open RequestStatus.processing = true
is_open _ = false

abbrev pub is_kind : RequestKind → RequestKind → Bool
is_kind RequestKind.erasure RequestKind.erasure = true
is_kind RequestKind.export RequestKind.export = true
is_kind RequestKind.inactivity_notice RequestKind.inactivity_notice = true
is_kind _ _ = false

abbrev pub is_open_for : ℕ → RequestKind → DataRequest → Bool
is_open_for user kind r = r.user_id == user && is_kind kind r.kind && is_open r.status

-- ORDER BY created_at DESC, id DESC
abbrev pub is_newer : ℕ × DataRequest → ℕ × DataRequest → Bool
is_newer (i, r) (j, s) =
    if r.created_at == s.created_at then leb j i else ltb s.created_at r.created_at

-- LIMIT 1
abbrev pub newest : Table DataRequest → Option (ℕ × DataRequest)
newest [] = none
newest (row ∷ t) = elim (newest t) [
  | none ↦ some row
  | some other ↦ if is_newer row other then some row else some other
]

unfoldable pub find_open_request : ℕ → RequestKind → Db → Option (ℕ × DataRequest)
find_open_request user kind db = newest (select (is_open_for user kind) db.data_requests)

-- UPDATE data_requests SET f WHERE id = $1 RETURNING *
abbrev pub update_request : ℕ → (DataRequest → DataRequest) → Tx (Option DataRequest)
update_request id f db =
    let (row, rows) = update_where id (λ _. true) f db.data_requests in
    (ok row, record db { data_requests = rows })

abbrev pub with_status : RequestStatus → DataRequest → DataRequest
with_status s r = record r { status = s }

abbrev pub with_detail : Detail → DataRequest → DataRequest
with_detail more r = record r { detail = merge_detail r.detail more }

unfoldable pub mark_request_processing : ℕ → Tx (Option DataRequest)
mark_request_processing id = update_request id (with_status RequestStatus.processing)

abbrev pub completed : ℕ → Detail → DataRequest → DataRequest
completed at detail r = record r {
  status = RequestStatus.completed;
  completed_at = some at;
  detail = merge_detail r.detail detail;
}

-- Every caller gives its keys with values, so none is overwritten by null.
unfoldable pub complete_request : ℕ → ℕ → Detail → Tx (Option DataRequest)
complete_request id at detail = update_request id (completed at detail)

abbrev pub failed : String → DataRequest → DataRequest
failed reason r = record r {
  status = RequestStatus.failed;
  detail = merge_detail r.detail (record no_detail { failed_reason = some reason });
}

unfoldable pub fail_request : ℕ → String → Tx (Option DataRequest)
fail_request id reason = update_request id (failed reason)

unfoldable pub merge_request_detail : ℕ → Detail → Tx (Option DataRequest)
merge_request_detail id more = update_request id (with_detail more)

unfoldable pub get_user : ℕ → Db → Option User
get_user id db = lookup id db.users

-- SET deleted_at = COALESCE(deleted_at, $2)
abbrev pub deleted : ℕ → User → User
deleted at u = record u { deleted_at = or_else u.deleted_at (some at) }

unfoldable pub mark_deleted : ℕ → ℕ → Tx (Option User)
mark_deleted id at db =
    let (row, rows) = update_where id (λ _. true) (deleted at) db.users in
    (ok row, record db { users = rows })

-- !user || user.anonymized_at !== null
abbrev pub is_gone : Option User → Bool
is_gone none = true
is_gone (some u) = is_some u.anonymized_at
