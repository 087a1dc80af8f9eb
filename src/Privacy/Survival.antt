-- ===== src/Privacy/Survival.antt =====
-- A copy that was collected before an erasure and is stored after it.
use homeplate.Base.{ℕ, ◌≡◌, refl, sym, ap, ◌∙◌, false, some, arith, inl, inr, Bool-cases}
use mathlib.Core.Path.{subst}
use homeplate.Table.{lookup, update_all, count}
use homeplate.Table.Updates.{
  view, view-modify, view-update_all, lookup-view, lookup-modify_hit, update_where-modify,
}
use homeplate.Database.{Db, Env, ok, DataRequest, RequestKind, RequestStatus, Export, ErasureReason}
use homeplate.Auth.Sessions.{Scan}
use homeplate.Privacy.Requests.{is_gone, mark_request_processing, with_status, completed}
use homeplate.Privacy.Erasing.{is_export_of, wiped, is_hosted_by}
use homeplate.Privacy.Copies.{Opener}
use homeplate.Privacy.Service.{Deps, Windows, Phase, process_erasure, is_settled, erasure_evidence}
use homeplate.Privacy.Exporting.{Collected, begin_export, finish_export}
use homeplate.Privacy.Exports.{
  IsOwnExport, exported, with_request, begin_export_ok, begin_export_gone, finish_export_ok,
}
use homeplate.Privacy.Forgotten.{IsForgotten}
use homeplate.Privacy.Forgetting.{references}
use homeplate.Privacy.Erasure.{processing, erase_inv, process_erasure_inv}
use homeplate.Privacy.Outcome.{IsMediaOnly}

-- Whose request it is, and for what.
abbrev purpose : DataRequest → ℕ × RequestKind
purpose r = (r.user_id, r.kind)

-- No step of an erasure changes whose a request is.
erasure-purpose :
    (env : Env) (w : Windows) (deps : Deps) (scan : Scan) (user request : ℕ)
    (reason : ErasureReason) (db db' : Db) (media : ℕ)
    → IsMediaOnly deps
    → process_erasure env w deps scan user request reason db ≡ (ok (Phase.erased media), db')
    → view purpose db'.data_requests ≡ view purpose db.data_requests
unfolding mark_request_processing
erasure-purpose env w deps scan user request reason db db' media media_only ran =
    let (_, did) = process_erasure_inv env w deps scan user request reason db db' media ran in
    let (m, mid, deleted, _, is) = erase_inv env deps scan user request db db' _ did in
    let marked = processing env deps scan user request db in
    let written : mid ≡ record marked { media_objects = mid.media_objects } =
      subst (λ (d : Db). d ≡ record marked { media_objects = d.media_objects })
        (ap (λ q. q.1) deleted) (media_only user marked) in
    let finish : DataRequest → DataRequest =
      completed env.date_now
        (erasure_evidence m (references user mid) (count (is_hosted_by user) mid.listings)) in
    ap (λ (d : Db). view purpose d.data_requests) is
    ∙ view-modify purpose request finish (update_all (is_export_of user) wiped mid.data_requests)
        (λ r. refl)
    ∙ view-update_all purpose (is_export_of user) wiped mid.data_requests (λ r. refl)
    ∙ ap (λ (d : Db). view purpose d.data_requests) written
    ∙ ap (view purpose)
        (update_where-modify request (with_status RequestStatus.processing) db.data_requests)
    ∙ view-modify purpose request (with_status RequestStatus.processing) db.data_requests
        (λ r. refl)

-- A copy was collected for a request that is being processed now.
began_marks :
    (env : Env) (open_ : Opener) (user request : ℕ) (r : DataRequest) (db mid : Db) (copy : Export)
    → lookup request db.data_requests ≡ some r
    → r.kind ≡ RequestKind.export
    → is_settled r.status ≡ false
    → begin_export open_ user request db ≡ (ok (Collected.collected (some copy)), mid)
    → mid ≡ with_request env open_ user request RequestStatus.processing db
began_marks env open_ user request r db mid copy found kind open__ began =
    elim (Bool-cases (is_gone (lookup user db.users))) [
      | inl left ↦ absurd (
          ground
            (arith, began, begin_export_gone env open_ user request r db found kind open__ left))
      | inr there ↦
          ap (λ q. q.1)
            (sym began ∙ begin_export_ok env open_ user request r db found kind open__ there)
    ]

-- An erasure that comes between the collecting of an export and its storing does not last: given
-- that the media service writes no table but its own, the collected copy is stored under the
-- request when the account is erased already, and so the user is not forgotten.
pub export_survives_erasure :
    (env later : Env) (w : Windows) (open_ : Opener) (deps : Deps) (scan : Scan)
    (user request erasure : ℕ) (reason : ErasureReason) (r : DataRequest) (db mid gone : Db)
    (copy : Export) (media : ℕ)
    → IsMediaOnly deps
    → lookup request db.data_requests ≡ some r
    → IsOwnExport user r
    → is_settled r.status ≡ false
    → begin_export open_ user request db ≡ (ok (Collected.collected (some copy)), mid)
    → process_erasure env w deps scan user erasure reason mid ≡ (ok (Phase.erased media), gone)
    → let after = (finish_export later request (Collected.collected (some copy)) gone).1 in
      ((s : DataRequest) × (lookup request after.data_requests ≡ some s)
        × (s.detail.export ≡ some copy))
      × ¬ IsForgotten user after
export_survives_erasure env later w open_ deps scan user request erasure reason r db mid gone copy
      media media_only found own open__ began erased =
    let (mine, kind) = own in
    let marks = began_marks later open_ user request r db mid copy found kind open__ began in
    let same : view purpose gone.data_requests ≡ view purpose db.data_requests =
      erasure-purpose env w deps scan user erasure reason mid gone media media_only erased
      ∙ ap (λ (d : Db). view purpose d.data_requests) marks
      ∙ view-modify purpose request (with_status RequestStatus.processing) db.data_requests
          (λ q. refl) in
    let (s, there, whose) =
      lookup-view purpose request gone.data_requests db.data_requests same found in
    let stored = exported later open_ user request (some copy) in
    let done = finish_export_ok later open_ user request (some copy) gone in
    let kept =
      ap (λ q. lookup request q.1.data_requests) done
      ∙ lookup-modify_hit request stored gone.data_requests there in
    (
      (stored s, kept, refl),
      λ forgotten.
          let wiped_ =
            forgotten.copies request (stored s) kept (ap (λ q. q.0) whose ∙ mine)
              (ap (λ q. q.1) whose ∙ kind) in
          ground (arith, wiped_),
    )
