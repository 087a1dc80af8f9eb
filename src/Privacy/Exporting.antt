-- ===== src/Privacy/Exporting.antt =====
-- src/modules/privacy/service.js: requestExport, processExport, getExportForUser and
-- runInactivitySweep. processExport is in two steps, with the copy that it collects between them.
use homeplate.Base.{
  ℕ, Bool, true, not, ◌&&◌, Option, none, some, List, [], ◌∷◌, ◌==◌, leb, ltb, take, if◌then◌else◌,
  is_some,
}
use homeplate.Table.{Table, select, order_by, count}
use homeplate.Database.{
  Db, Env, Tx, ◌>>=◌, ◌>>◌, pure, throw_if, query, some_or_throw, with_transaction, Failure,
  DataRequest, RequestKind, RequestStatus, RequestCopy, User, JobType, Payload, ErasureReason,
  DedupeKey, Export,
}
use homeplate.Outbox.Enqueue.{enqueue}
use homeplate.Privacy.Requests.{
  no_detail, serialize_request, create_request, find_request_by_id, find_request_for_user,
  mark_request_processing, complete_request, fail_request, get_user, is_gone, is_kind, is_open_for,
}
use homeplate.Privacy.Copies.{Opener, collect_export}
use homeplate.Privacy.Service.{Windows, add_days, is_settled}

-- !user || user.deleted_at !== null
abbrev pub is_deleted : Option User → Bool
is_deleted none = true
is_deleted (some u) = is_some u.deleted_at

unfoldable pub request_export : Env → Windows → (user : ℕ) → Tx RequestCopy
request_export env w user = with_transaction (
    query (get_user user) >>= λ found.
    throw_if (is_deleted found) Failure.not_found
    >> create_request env user RequestKind.export (add_days env.date_now w.erasure_days)
        (record no_detail { requested_at = some env.date_now })
    >>= λ row.
        enqueue env JobType.data_export (Payload.export_ref user row.0)
          (some (DedupeKey.export row.0)) none
        >> pure (serialize_request row))

-- What the reading step ends with.
pub data Collected : Type 0 where
  already_done : RequestStatus → Collected
  user_erased : Collected
  collected : Option Export → Collected

-- Up to the copy.
unfoldable pub begin_export : Opener → (user request : ℕ) → Tx Collected
begin_export open_ user request = query (find_request_by_id request) >>= λ found.
    some_or_throw found Failure.not_found >>= λ r.
    throw_if (not (is_kind RequestKind.export r.kind)) Failure.type_error
    >> (if is_settled r.status
        then pure (Collected.already_done r.status)
        else (query (get_user user) >>= λ u.
            if is_gone u
            then fail_request request "user_erased" >> pure Collected.user_erased
            else (mark_request_processing request >> query (collect_export open_ user) >>= λ copy.
                pure (Collected.collected copy))))

-- The transaction that stores the copy.
unfoldable pub finish_export : Env → (request : ℕ) → Collected → Tx (Unit {0})
finish_export env request (Collected.already_done s) = pure tt
finish_export env request Collected.user_erased = pure tt
finish_export env request (Collected.collected copy) =
    with_transaction (
      complete_request request env.date_now
        (record no_detail { export = copy; generated_at = some env.date_now }))
    >> pure tt

unfoldable pub process_export : Env → Opener → (user request : ℕ) → Tx (Unit {0})
process_export env open_ user request =
    begin_export open_ user request >>= finish_export env request

-- !row || row.kind !== 'export'
abbrev pub is_no_export : Option DataRequest → Bool
is_no_export none = true
is_no_export (some r) = not (is_kind RequestKind.export r.kind)

unfoldable pub get_export_for_user : (user request : ℕ) → Tx (RequestCopy × Option Export)
get_export_for_user user request = query (find_request_for_user request user) >>= λ found.
    throw_if (is_no_export found) Failure.not_found
    >> some_or_throw found Failure.not_found
    >>= λ r. pure (serialize_request (request, r), r.detail.export)

-- $1 - make_interval(months => $2), which is PostgreSQL's calendar
abbrev pub MonthsBefore : Type 0
MonthsBefore = (now months : ℕ) → ℕ

-- NOT EXISTS …
abbrev pub is_flagged : ℕ → Db → Bool
is_flagged user db = leb 1 (count (is_open_for user RequestKind.inactivity_notice) db.data_requests)

abbrev pub is_stale : ℕ → User → Bool
is_stale cutoff u =
    not (is_some u.deleted_at) && not (is_some u.anonymized_at) && leb u.last_active_at cutoff

-- The users of a table that the sweep is to flag.
abbrev pub unflagged : Db → Table User → Table User
unflagged db [] = []
unflagged db ((id, u) ∷ t) =
    let rest = unflagged db t in if is_flagged id db then rest else (id, u) ∷ rest

-- ORDER BY last_active_at ASC, id ASC
abbrev pub is_staler : ℕ × User → ℕ × User → Bool
is_staler (i, u) (j, v) =
    if u.last_active_at == v.last_active_at then leb i j else ltb u.last_active_at v.last_active_at

unfoldable pub find_inactive_users : (cutoff limit : ℕ) → Db → Table User
find_inactive_users cutoff limit db =
    take limit (order_by is_staler (unflagged db (select (is_stale cutoff) db.users)))

unfoldable pub flag_inactive : Env → Windows → (user : ℕ) → Tx (ℕ × DataRequest)
flag_inactive env w user = with_transaction (
    create_request env user RequestKind.inactivity_notice (add_days env.date_now w.erasure_days)
      (record no_detail { flagged_at = some env.date_now })
    >>= λ row.
        enqueue env JobType.account_erasure
          (Payload.erasure_ref user row.0 ErasureReason.inactivity)
          (some (DedupeKey.erasure_notice row.0)) (some env.date_now)
        >> pure row)

-- One transaction after the other: the users, each with its request.
abbrev pub flag_all : Env → Windows → Table User → Tx (List (ℕ × ℕ))
flag_all env w [] = pure []
flag_all env w ((id, u) ∷ t) =
    flag_inactive env w id >>= λ row. flag_all env w t >>= λ rest. pure ((id, row.0) ∷ rest)

unfoldable pub run_inactivity_sweep : Env → Windows → MonthsBefore → (limit : ℕ) → Tx (List (ℕ × ℕ))
run_inactivity_sweep env w before limit =
    query (find_inactive_users (before env.date_now w.inactivity_months) limit) >>= flag_all env w
