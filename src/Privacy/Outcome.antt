-- ===== src/Privacy/Outcome.antt =====
-- An erasure that was done: nothing is left of the user, it is done once, and what others have
-- stays.
use homeplate.Base.{ℕ, ◌≡◌, refl, sym, ap, ◌∙◌, false, none, some, arith}
use mathlib.Core.Path.{subst}
use homeplate.Table.{Table, lookup, update_all, modify, count}
use homeplate.Table.Laws.{lookup-update_all}
use homeplate.Table.Updates.{update_where-modify, lookup-modify_hit}
use homeplate.Database.{Db, Env, ok, DataRequest, RequestStatus, ErasureReason}
use homeplate.Auth.Sessions.{Scan, is_session_of}
use homeplate.Auth.Revocation.{IsComplete, sessions_after-none}
use homeplate.Privacy.Requests.{mark_request_processing, with_status, find_request_by_id, completed}
use homeplate.Privacy.Erasing.{is_hosted_by, is_export_of, wiped}
use homeplate.Privacy.Service.{Deps, Windows, Phase, process_erasure, erasure_evidence}
use homeplate.Privacy.Forgotten.{IsForgotten}
use homeplate.Privacy.Forgetting.{emptied_db, emptied_db-IsForgotten, references}
use homeplate.Privacy.Erasure.{Erases, processing, erased_db, erase_inv, process_erasure_inv}

erased_db-IsForgotten :
    (env : Env) (deps : Deps) (scan : Scan) (user request media : ℕ) (mid : Db)
    → IsForgotten user (erased_db env deps scan user request media mid)
erased_db-IsForgotten env deps scan user request media mid =
    let v = emptied_db-IsForgotten env user request media mid in
    record {
      account = v.account;
      authored = v.authored;
      targeted = v.targeted;
      sent = v.sent;
      raised = v.raised;
      hosted = v.hosted;
      profile = v.profile;
      tokens = v.tokens;
      copies = v.copies;
    }

-- What deleteForUser of the media service writes: no table but that of the media.
abbrev pub IsMediaOnly : Deps → Type 0
IsMediaOnly deps =
    (user : ℕ) (db : Db)
    → let after = (deps.delete_media user db).1 in
      after ≡ record db { media_objects = after.media_objects }

-- The request, which an erasure of the media leaves there, is completed in the end.
request_completed :
    (env : Env) (deps : Deps) (scan : Scan) (user request media : ℕ) (db mid : Db) (r : DataRequest)
    → IsMediaOnly deps
    → deps.delete_media user (processing env deps scan user request db) ≡ (ok media, mid)
    → lookup request db.data_requests ≡ some r
    → (s : DataRequest) × (lookup request
          (erased_db env deps scan user request media mid).data_requests
        ≡ some s)
      × (s.status ≡ RequestStatus.completed)
unfolding mark_request_processing
request_completed env deps scan user request media db mid r media_only deleted found =
    let rows = modify request (with_status RequestStatus.processing) db.data_requests in
    let marked : lookup request rows ≡ some (with_status RequestStatus.processing r) =
      lookup-modify_hit request (with_status RequestStatus.processing) db.data_requests found in
    let same : mid.data_requests ≡ rows =
      ap (λ q. q.1.data_requests) (sym deleted)
      ∙ ap (λ (d : Db). d.data_requests)
          (media_only user (processing env deps scan user request db))
      ∙ update_where-modify request (with_status RequestStatus.processing) db.data_requests in
    let wiped_rows = update_all (is_export_of user) wiped mid.data_requests in
    let kept : (s : DataRequest) × (lookup request wiped_rows ≡ some s) = ground (
      arith,
      lookup-update_all request (is_export_of user) wiped mid.data_requests,
      ap (λ (t : Table DataRequest). lookup request t) same,
      marked,
    ) in
    let finish : DataRequest → DataRequest =
      completed env.date_now
        (erasure_evidence media (references user mid) (count (is_hosted_by user) mid.listings)) in
    (finish kept.0, lookup-modify_hit request finish wiped_rows kept.1, refl)

module _ (env : Env) (w : Windows) (deps : Deps) (scan : Scan) (user request : ℕ)
    (reason : ErasureReason) (db db' : Db) (media : ℕ) where
  -- When the erasure job answers that the account is erased, its request was open and its account
  -- there, and for an inactive account the notice had been sent and no activity was seen since the
  -- flag. Then no row says who the user was, no review, message or alert is under the user's name,
  -- each listing of the user is scrubbed, and no live session of the user is left.
  pub process_erasure_forgets :
      IsComplete scan
      → process_erasure env w deps scan user request reason db ≡ (ok (Phase.erased media), db')
      → Erases reason user request db
        × IsForgotten user db'
        × ((k : ℕ) → is_session_of env user k db'.sessions ≡ false)
  process_erasure_forgets complete ran =
      let (why, did) = process_erasure_inv env w deps scan user request reason db db' media ran in
      let (m, mid, _, phase, is) = erase_inv env deps scan user request db db' _ did in
      let after = emptied_db env user request m mid in
      (
        why,
        subst (λ (d : Db). IsForgotten user d) (sym is)
            (erased_db-IsForgotten env deps scan user request m mid),
        subst (λ (d : Db). (k : ℕ) → is_session_of env user k d.sessions ≡ false) (sym is)
            (λ k. sessions_after-none env scan user k none after complete),
      )

  -- An erasure that was done is done once: given that the media service writes no table but its
  -- own, any later delivery for the request, with whatever reason, clock and functions it comes,
  -- answers that the request is completed, and writes nothing.
  pub process_erasure_once :
      (later : Env) (w' : Windows) (deps' : Deps) (scan' : Scan) (user' : ℕ)
      (reason' : ErasureReason)
      → IsMediaOnly deps
      → process_erasure env w deps scan user request reason db ≡ (ok (Phase.erased media), db')
      → process_erasure later w' deps' scan' user' request reason' db'
        ≡ (ok (Phase.already_done RequestStatus.completed), db')
  unfolding process_erasure find_request_by_id mark_request_processing
  process_erasure_once later w' deps' scan' user' reason' media_only ran =
      let ((r, u, found, _, _, _, _), did) =
        process_erasure_inv env w deps scan user request reason db db' media ran in
      let (m, mid, deleted, _, is) = erase_inv env deps scan user request db db' _ did in
      let (s, there, done) =
        request_completed env deps scan user request m db mid r media_only deleted found in
      let there' = ap (λ (d : Db). lookup request d.data_requests) is ∙ there in
      ground (arith, there', done)
