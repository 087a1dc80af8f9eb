-- ===== src/Handlers/Erasing.antt =====
-- The job of a deletion with the media service behind it: it erases the account when the objects of
-- the user can be deleted.
use homeplate.Base.{
  ℕ, ◌≡◌, refl, sym, ap, ◌∙◌, true, false, Option, none, some, [], ◌∷◌, arith, inl, inr, Bool-cases,
  is_some, if◌then◌else◌, ◌==◌,
}
use homeplate.Table.{Table, lookup, select}
use homeplate.Table.Laws.{IsUnique}
use homeplate.Database.{
  Db, Env, Tx, ok, Payload, ErasureReason, DataRequest, User, MediaObject, Result-cases,
}
use homeplate.Outbox.Worker.{Context}
use homeplate.Auth.Sessions.{Scan, is_session_of}
use homeplate.Auth.Revocation.{IsComplete}
use homeplate.Media.Service.{Storage, is_owner, delete_for_user}
use homeplate.Media.Sweeping.{has_failing, passes, delete_for_user-Sweeps, delete_for_user-media}
use homeplate.Privacy.Requests.{find_request_by_id, get_user, mark_request_processing}
use homeplate.Privacy.Service.{Windows, Notice, Phase, process_erasure, is_settled}
use homeplate.Privacy.Forgotten.{IsForgotten}
use homeplate.Privacy.Erasure.{processing, erase_ok, erased_db}
use homeplate.Privacy.Outcome.{IsMediaOnly, process_erasure_forgets}
use homeplate.Handlers.{erasure_deps, account_erasure}

-- A row of the user is one whose object can be deleted, when all of them can.
all_deletable :
    (works : Storage) (user k : ℕ) (t : Table MediaObject)
    → has_failing works (select (is_owner user) t) ≡ false
    → passes (is_owner user) works (lookup k t) ≡ passes (is_owner user) (λ key. true) (lookup k t)
all_deletable works user k [] h = refl
all_deletable works user k ((i, m) ∷ t) h = elim (Bool-cases (is_owner user m)) [
  | inr other ↦
      let rest = all_deletable works user k t (ground (arith, h, other)) in
      elim (Bool-cases (k == i)) [
        | inl here ↦ ground (arith, here, other)
        | inr apart ↦ ground (arith, apart, rest)
      ]
  | inl mine ↦ elim (Bool-cases (works m.storage_key)) [
    | inr failing ↦ absurd (ground (arith, h, mine, failing))
    | inl deleted ↦
        let rest = all_deletable works user k t (ground (arith, h, mine, deleted)) in
        elim (Bool-cases (k == i)) [
          | inl here ↦ ground (arith, here, mine, deleted)
          | inr apart ↦ ground (arith, apart, rest)
        ]
  ]
]

none_left :
    (works : Storage) (user k : ℕ) (t : Table MediaObject) (o : Option MediaObject)
    → has_failing works (select (is_owner user) t) ≡ false
    → o ≡ (if passes (is_owner user) works (lookup k t) then none else lookup k t)
    → passes (is_owner user) (λ key. true) o ≡ false
none_left works user k t o can is =
    let all_ = all_deletable works user k t can in
    elim (Bool-cases (passes (is_owner user) works (lookup k t))) [
      | inl hit ↦
          ap (passes (is_owner user) (λ key. true))
            (is ∙ ap (λ b. if b then none else lookup k t) hit)
      | inr miss ↦
          ap (passes (is_owner user) (λ key. true))
            (is ∙ ap (λ b. if b then none else lookup k t) miss)
          ∙ (sym all_ ∙ miss)
    ]

-- No object of the user is kept.
abbrev pub HasNoMedia : ℕ → Db → Type 0
HasNoMedia user db =
    (k : ℕ) → passes (is_owner user) (λ key. true) (lookup k db.media_objects) ≡ false

module _ (works : Storage) (send : (user request : ℕ) → Tx (Option Notice)) where
  pub erasure_deps-IsMediaOnly : IsMediaOnly (erasure_deps works send)
  erasure_deps-IsMediaOnly user db =
      let only = delete_for_user-media works user db in
      elim (Result-cases (delete_for_user works user db)) [
        | inl (d, mid, e) ↦ ground (arith, only, e)
        | inr (x, mid, e) ↦ ground (arith, only, e)
      ]

  -- The job of a deletion that was asked for, for an open request and an account that is not
  -- anonymized, when every object of the user can be deleted and the scan of Redis is complete: it
  -- succeeds, and then no row says who the user was, no row of the media is the user's, and no
  -- live session is.
  pub account_erasure_erases :
      (w : Windows) (scan : Scan) (env : Env) (ctx : Context) (user request : ℕ) (r : DataRequest)
      (u : User) (db : Db)
      → IsUnique db.media_objects
      → IsComplete scan
      → lookup request db.data_requests ≡ some r
      → is_settled r.status ≡ false
      → lookup user db.users ≡ some u
      → is_some u.anonymized_at ≡ false
      → has_failing works (select (is_owner user) db.media_objects) ≡ false
      → (db' : Db) × (account_erasure works send w scan env
            (Payload.erasure_ref user request ErasureReason.deletion)
            ctx
            db
          ≡ (ok tt, db'))
        × IsForgotten user db'
        × HasNoMedia user db'
        × ((k : ℕ) → is_session_of env user k db'.sessions ≡ false)
  unfolding account_erasure process_erasure find_request_by_id get_user mark_request_processing
  account_erasure_erases w scan env ctx user request r u db unique complete found open_ there kept
        can =
      let deps = erasure_deps works send in
      let mid = processing env deps scan user request db in
      let (_, (d, answers), _) = delete_for_user-Sweeps works user 0 mid unique in
      let p = delete_for_user works user mid in
      let after = p.1 in
      let deleted : deps.delete_media user mid ≡ (ok d.deleted_objects, after) =
        ground (arith, answers, can) in
      let erased = erase_ok env deps scan user request db after d.deleted_objects deleted in
      let ran : process_erasure env w deps scan user request ErasureReason.deletion db ≡ (
        ok (Phase.erased d.deleted_objects),
        erased_db env deps scan user request d.deleted_objects after,
      ) =
        ground (arith, found, open_, there, kept, erased) in
      let (_, forgotten, ended) =
        process_erasure_forgets env w deps scan user request ErasureReason.deletion db
          (erased_db env deps scan user request d.deleted_objects after) d.deleted_objects complete
          ran in
      (
        erased_db env deps scan user request d.deleted_objects after,
        ground (arith, ran),
        forgotten,
        (λ k.
            none_left works user k db.media_objects (lookup k after.media_objects) can
              (delete_for_user-Sweeps works user k mid unique).0),
        ended,
      )
