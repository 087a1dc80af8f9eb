-- ===== src/Privacy/Erasure.antt =====
-- The job of an erasure when it erases: what it leaves, and that it does so once.
use homeplate.Base.{
  ℕ, ◌≤◌, ◌≡◌, refl, true, false, Option, none, some, arith, inl, inr, Option-cases, Bool-cases,
  is_some, ltb,
}
use homeplate.Table.{lookup}
use homeplate.Database.{
  Db, Env, ok, err, with_transaction, Failure, User, DataRequest, ErasureReason, Detail,
  Result-cases, >>=_inv, with_transaction_ok,
}
use homeplate.Auth.Sessions.{Scan}
use homeplate.Auth.Revocation.{sessions_after, destroy_sessions-ok}
use homeplate.Privacy.Requests.{
  complete_request, mark_request_processing, find_request_by_id, get_user, no_detail,
}
use homeplate.Privacy.Service.{
  Deps, Windows, Phase, erase, erase_rows, erase_inactive, send_and_schedule, close_request,
  process_erasure, add_days, undelivered, record_and_schedule, is_settled, erase_unless_anonymized,
}
use homeplate.Privacy.Forgetting.{emptied_db, erase_rows_ok}

module _ (env : Env) (deps : Deps) (scan : Scan) (user request : ℕ) where
  abbrev pub processing : Db → Db
  processing db = (mark_request_processing request db).1

  -- The emptied account, and its sessions ended.
  abbrev pub erased_db : ℕ → Db → Db
  erased_db media mid =
      let after = emptied_db env user request media mid in
      record after { sessions = sessions_after env scan user none after }

  -- When the media are deleted, the erasure goes through.
  pub erase_ok :
      (db mid : Db) (media : ℕ)
      → deps.delete_media user (processing db) ≡ (ok media, mid)
      → erase env deps scan user request db ≡ (ok (Phase.erased media), erased_db media mid)
  unfolding erase mark_request_processing
  erase_ok db mid media e =
      let (row, ran) = erase_rows_ok env user request media mid in
      let (n, ended) =
        destroy_sessions-ok env scan user none (emptied_db env user request media mid) in
      ground (arith, e, with_transaction_ok (erase_rows env user request media) ran, ended)

  pub erase_err :
      (db mid : Db) (x : Failure)
      → deps.delete_media user (processing db) ≡ (err x, mid)
      → erase env deps scan user request db ≡ (err x, mid)
  unfolding erase mark_request_processing
  erase_err db mid x e = ground (arith, e)

  -- An erasure that returns has deleted the media.
  pub erase_inv :
      (db db' : Db) (phase : Phase)
      → erase env deps scan user request db ≡ (ok phase, db')
      → (media : ℕ) × (mid : Db) × (deps.delete_media user (processing db) ≡ (ok media, mid))
        × (phase ≡ Phase.erased media)
        × (db' ≡ erased_db media mid)
  erase_inv db db' phase ran = elim (Result-cases (deps.delete_media user (processing db))) [
    | inr (x, mid, e) ↦ absurd (ground (arith, ran, erase_err db mid x e))
    | inl (media, mid, e) ↦
        let did = erase_ok db mid media e in
        (media, mid, e, ground (arith, ran, did), ground (arith, ran, did))
  ]

pub close_request_phase :
    (env : Env) (request : ℕ) (detail : Detail) (phase : Phase) (db : Db)
    → close_request env request detail phase db
      ≡ (ok phase, (complete_request request env.date_now detail db).1)
unfolding close_request complete_request with_transaction
close_request_phase env request detail phase db = refl

send_and_schedule_phase :
    (env : Env) (w : Windows) (deps : Deps) (user request : ℕ) (db db' : Db) (phase : Phase)
    → send_and_schedule env w deps user request db ≡ (ok phase, db')
    → (at : ℕ) × (phase ≡ Phase.notice_sent at)
unfolding send_and_schedule
send_and_schedule_phase env w deps user request db db' phase ran =
    let (result, mid, _, rest) =
      >>=_inv (deps.send_notice user request) (record_and_schedule env w user request) ran in
    let planned = add_days env.date_now w.erasure_days in
    elim (Bool-cases (undelivered result)) [
      | inl failed ↦ absurd (ground (arith, rest))
      | inr sent ↦ (planned, ground (arith, rest))
    ]

-- What an erasure of an inactive account needs: a notice that was sent, and no activity since the
-- account was flagged.
abbrev pub Warranted : ErasureReason → DataRequest → User → Type 0
Warranted ErasureReason.deletion r u = r ≡ r
Warranted ErasureReason.inactivity r u =
    (is_some r.detail.notice_sent_at ≡ true) × (u.last_active_at ≤ r.created_at)

-- The rows that an erasure is about: an open request, and an account that is not anonymized.
abbrev pub Erases : ErasureReason → (user request : ℕ) → Db → Type 0
Erases reason user request db =
    (r : DataRequest) × (u : User) × (lookup request db.data_requests ≡ some r)
    × (is_settled r.status ≡ false)
    × (lookup user db.users ≡ some u)
    × (is_some u.anonymized_at ≡ false)
    × Warranted reason r u

module _ (env : Env) (w : Windows) (deps : Deps) (scan : Scan) (user request : ℕ) where
  erase_inactive_inv :
      (r : DataRequest) (u : User) (db db' : Db) (media : ℕ)
      → erase_inactive env w deps scan user request r u db ≡ (ok (Phase.erased media), db')
      → Warranted ErasureReason.inactivity r u
        × (erase env deps scan user request db ≡ (ok (Phase.erased media), db'))
  unfolding erase_inactive
  erase_inactive_inv r u db db' media ran = elim (Bool-cases (is_some r.detail.notice_sent_at)) [
    | inr unsent ↦
        let first : send_and_schedule env w deps user request db ≡ (ok (Phase.erased media), db') =
          ground (arith, ran) in
        absurd (ground (arith, send_and_schedule_phase env w deps user request db db' _ first))
    | inl sent ↦ elim (Bool-cases (ltb r.created_at u.last_active_at)) [
      | inl active ↦ absurd (
          ground (
            arith,
            ran,
            close_request_phase env request
                (record no_detail { cancelled = some "user_active_again" }) Phase.cancelled db,
          ))
      | inr still ↦ ((sent, ground arith), ground (arith, ran))
    ]
  ]

  erase_unless_anonymized_inv :
      (reason : ErasureReason) (r : DataRequest) (found : Option User) (db db' : Db) (media : ℕ)
      → erase_unless_anonymized env w deps scan user request reason r found db
        ≡ (ok (Phase.erased media), db')
      → (u : User) × (found ≡ some u)
        × (is_some u.anonymized_at ≡ false)
        × Warranted reason r u
        × (erase env deps scan user request db ≡ (ok (Phase.erased media), db'))
  erase_unless_anonymized_inv reason r none db db' media ran = absurd (
      ground (
        arith,
        ran,
        close_request_phase env request (record no_detail { already_anonymized = some true })
            Phase.already_anonymized db,
      ))
  erase_unless_anonymized_inv reason r (some u) db db' media ran =
      elim (Bool-cases (is_some u.anonymized_at)) [
        | inl gone ↦ absurd (
            ground (
              arith,
              ran,
              close_request_phase env request (record no_detail { already_anonymized = some true })
                  Phase.already_anonymized db,
            ))
        | inr there ↦ by_reason reason ran there
      ]
    where
      by_reason :
          (why : ErasureReason)
          → erase_unless_anonymized env w deps scan user request why r (some u) db
            ≡ (ok (Phase.erased media), db')
          → is_some u.anonymized_at ≡ false
          → (v : User) × (some u ≡ some v)
            × (is_some v.anonymized_at ≡ false)
            × Warranted why r v
            × (erase env deps scan user request db ≡ (ok (Phase.erased media), db'))
      by_reason ErasureReason.deletion e there = (u, refl, there, refl, ground (arith, e))
      by_reason ErasureReason.inactivity e there =
          let (why, did) = erase_inactive_inv r u db db' media (ground (arith, e)) in
          (u, refl, there, why, did)

  pub process_erasure_inv :
      (reason : ErasureReason) (db db' : Db) (media : ℕ)
      → process_erasure env w deps scan user request reason db ≡ (ok (Phase.erased media), db')
      → Erases reason user request db
        × (erase env deps scan user request db ≡ (ok (Phase.erased media), db'))
  unfolding process_erasure find_request_by_id get_user
  process_erasure_inv reason db db' media ran =
      elim (Option-cases (lookup request db.data_requests)) [
        | inl gone ↦ absurd (ground (arith, ran))
        | inr (r, found) ↦ elim (Bool-cases (is_settled r.status)) [
          | inl settled ↦ absurd (ground (arith, ran))
          | inr open_ ↦
              let (u, there, kept, why, did) =
                erase_unless_anonymized_inv reason r (lookup user db.users) db db' media
                  (ground (arith, ran)) in
              ((r, u, found, open_, there, kept, why), did)
        ]
      ]
