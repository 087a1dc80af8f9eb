-- ===== src/Privacy/Exports.antt =====
-- The copies of a user's data: whom they go to, and what an erasure in between leaves of one.
use homeplate.Base.{
  ℕ, ◌≡◌, refl, sym, ap, ◌∙◌, true, false, Option, some, arith, inl, inr, ◌⊎◌, Bool-cases,
  Option-cases, ◌==◌,
}
use homeplate.Table.{Table, lookup, modify}
use homeplate.Table.Updates.{lookup-modify_hit, update_where-modify}
use homeplate.Database.{
  Db, Env, ok, err, with_transaction, Failure, DataRequest, RequestKind, RequestStatus, User,
  Export, >>=_ok,
}
use homeplate.Privacy.Requests.{
  find_request_by_id, find_request_for_user, get_user, is_gone, is_kind, serialize_request,
  mark_request_processing, complete_request, fail_request, completed, failed, with_status,
  no_detail,
}
use homeplate.Privacy.Copies.{Opener, collect_export, serialize_user, copied_account}
use homeplate.Privacy.Service.{is_settled}
use homeplate.Privacy.Exporting.{
  Collected, begin_export, finish_export, process_export, get_export_for_user,
}

kind_export : (k : RequestKind) → is_kind RequestKind.export k ≡ true → k ≡ RequestKind.export
kind_export RequestKind.export e = refl
kind_export RequestKind.erasure e = absurd (ground (arith, e))
kind_export RequestKind.inactivity_notice e = absurd (ground (arith, e))

-- An export request of the user.
abbrev pub IsOwnExport : (user : ℕ) → DataRequest → Type 0
IsOwnExport user r = (r.user_id ≡ user) × (r.kind ≡ RequestKind.export)

-- GET /api/users/me/export/:id answers with a request and the copy under it exactly when there is
-- such a request, it is the caller's own and it is one for an export; everything else is refused
-- as not found, and nothing is written.
pub get_export_for_user_branches :
    (user request : ℕ) (db : Db)
    → ((r : DataRequest) × (lookup request db.data_requests ≡ some r)
        × IsOwnExport user r
        × (get_export_for_user user request db
            ≡ (ok (serialize_request (request, r), r.detail.export), db)))
      ⊎ ((get_export_for_user user request db ≡ (err Failure.not_found, db))
          × ¬ ((r : DataRequest) × (lookup request db.data_requests ≡ some r) × IsOwnExport user r))
unfolding get_export_for_user find_request_for_user
get_export_for_user_branches user request db =
    elim (Option-cases (lookup request db.data_requests)) [
      | inl gone ↦ inr (ground arith, λ p. ground (arith, p.1, gone))
      | inr (r, found) ↦ elim (Bool-cases (r.user_id == user)) [
        | inr foreign ↦ inr (
          ground arith,
          λ p.
              let same : p.0 ≡ r = ground (arith, p.1, found) in
              let mine : r.user_id ≡ user =
                ap (λ (q : DataRequest). q.user_id) (sym same) ∙ p.2.0 in
              ground (arith, mine),
        )
        | inl mine ↦ elim (Bool-cases (is_kind RequestKind.export r.kind)) [
          | inl copy ↦ inl (r, found, (ground arith, kind_export r.kind copy), ground arith)
          | inr other ↦ inr (
            ground arith,
            λ p.
                let same : p.0 ≡ r = ground (arith, p.1, found) in
                let is =
                  ap (λ (q : DataRequest). is_kind RequestKind.export q.kind) (sym same)
                  ∙ ap (is_kind RequestKind.export) p.2.1 in
                ground (arith, is),
          )
        ]
      ]
    ]

module _ (env : Env) (open_ : Opener) (user request : ℕ) where
  -- The request when its copy is stored.
  abbrev pub exported : Option Export → DataRequest → DataRequest
  exported copy =
      completed env.date_now (record no_detail { export = copy; generated_at = some env.date_now })

  pub finish_export_ok :
      (copy : Option Export) (db : Db)
      → finish_export env request (Collected.collected copy) db
        ≡ (ok tt, record db { data_requests = modify request (exported copy) db.data_requests })
  unfolding finish_export complete_request with_transaction
  finish_export_ok copy db = λ i. (
    ok tt,
    record db { data_requests = update_where-modify request (exported copy) db.data_requests i },
  )

  abbrev pub with_request : RequestStatus → Db → Db
  with_request s db = record db { data_requests = modify request (with_status s) db.data_requests }

  pub begin_export_ok :
      (r : DataRequest) (db : Db)
      → lookup request db.data_requests ≡ some r
      → r.kind ≡ RequestKind.export
      → is_settled r.status ≡ false
      → is_gone (lookup user db.users) ≡ false
      → begin_export open_ user request db ≡ (
        ok (
            Collected.collected
              (collect_export open_ user (with_request RequestStatus.processing db))),
        with_request RequestStatus.processing db,
      )
  unfolding begin_export find_request_by_id get_user mark_request_processing
  begin_export_ok r db found kind open__ there =
      let copy = ap (is_kind RequestKind.export) kind in
      let rows =
        update_where-modify request (with_status RequestStatus.processing) db.data_requests in
      let marks : (mark_request_processing request db).1
          ≡ with_request RequestStatus.processing db =
        λ i. record db { data_requests = rows i } in
      ground (arith, found, copy, open__, there, marks)

  pub begin_export_gone :
      (r : DataRequest) (db : Db)
      → lookup request db.data_requests ≡ some r
      → r.kind ≡ RequestKind.export
      → is_settled r.status ≡ false
      → is_gone (lookup user db.users) ≡ true
      → begin_export open_ user request db ≡ (
        ok Collected.user_erased,
        record db { data_requests = modify request (failed "user_erased") db.data_requests },
      )
  unfolding begin_export find_request_by_id get_user fail_request
  begin_export_gone r db found kind open__ gone =
      let copy = ap (is_kind RequestKind.export) kind in
      let fails : (fail_request request "user_erased" db).1
          ≡ record db { data_requests = modify request (failed "user_erased") db.data_requests } =
        λ i. record db {
          data_requests = update_where-modify request (failed "user_erased") db.data_requests i;
        } in
      ground (arith, found, copy, open__, gone, fails)

  finish_export_none : (db : Db) → finish_export env request Collected.user_erased db ≡ (ok tt, db)
  unfolding finish_export
  finish_export_none db = refl

  -- The copy of a user's account, as it stands under the request.
  abbrev pub IsCopyOf : User → Db → Option Export → Type 0
  IsCopyOf u db copy =
      (e : Export) × (copy ≡ some e)
      × (e.account ≡ serialize_user open_ user u (lookup user db.host_profiles))

  -- The job of an open export request, with nothing done in between: for a user who is there and
  -- not anonymized it stores a copy, with the user's account, and completes the request; for one
  -- who is gone it fails the request and stores nothing. No other table is written.
  pub process_export_branches :
      (r : DataRequest) (db : Db)
      → lookup request db.data_requests ≡ some r
      → r.kind ≡ RequestKind.export
      → is_settled r.status ≡ false
      → ((u : User) × (s : DataRequest) × (rows : Table DataRequest) × (process_export env open_
              user request db
            ≡ (ok tt, record db { data_requests = rows }))
          × (lookup user db.users ≡ some u)
          × (lookup request rows ≡ some s)
          × (s.status ≡ RequestStatus.completed)
          × IsCopyOf u db s.detail.export)
        ⊎ ((s : DataRequest) × (rows : Table DataRequest) × (process_export env open_ user request
                db
              ≡ (ok tt, record db { data_requests = rows }))
            × (is_gone (lookup user db.users) ≡ true)
            × (lookup request rows ≡ some s)
            × (s.status ≡ RequestStatus.failed)
            × (s.detail.export ≡ r.detail.export))
  unfolding process_export collect_export get_user
  process_export_branches r db found kind open__ =
      elim (Bool-cases (is_gone (lookup user db.users))) [
        | inl gone ↦
            let rows = modify request (failed "user_erased") db.data_requests in
            inr (
              failed "user_erased" r,
              rows,
              >>=_ok (begin_export open_ user request) (finish_export env request)
                    (begin_export_gone r db found kind open__ gone)
                  ∙ finish_export_none (record db { data_requests = rows }),
              gone,
              lookup-modify_hit request (failed "user_erased") db.data_requests found,
              refl,
              refl,
            )
        | inr kept ↦ elim (Option-cases (lookup user db.users)) [
          | inl gone ↦ absurd (ground (arith, kept, gone))
          | inr (u, there) ↦
              let mid = with_request RequestStatus.processing db in
              let copy = collect_export open_ user mid in
              let e = copied_account open_ user u mid in
              let is : copy ≡ some e = ground (arith, there) in
              let marked =
                lookup-modify_hit request (with_status RequestStatus.processing) db.data_requests
                  found in
              inl (
                u,
                exported copy (with_status RequestStatus.processing r),
                modify request (exported copy) mid.data_requests,
                >>=_ok (begin_export open_ user request) (finish_export env request)
                      (begin_export_ok r db found kind open__ kept)
                    ∙ finish_export_ok copy mid,
                there,
                lookup-modify_hit request (exported copy) mid.data_requests marked,
                refl,
                (e, ap (λ c. (exported c r).detail.export) is, refl),
              )
        ]
      ]
