-- ===== src/Privacy/Sweep.antt =====
-- The inactivity sweep: whom it flags is not flagged again while the request is open.
use homeplate.Base.{
  ◌&&◌, not, ℕ, suc, ◌≡◌, ◌≤◌, refl, sym, ap, ◌∙◌, true, false, none, some, List, [], ◌∷◌, arith,
  inl, inr, Bool-cases, Option-cases, is_some, ◌==◌, take, zero, ==_refl,
}
use homeplate.Table.{Table, lookup, count, select, order_by, insert_by}
use homeplate.Database.{
  Db, Env, Tx, ok, ◌>>=◌, ◌>>◌, pure, User, DataRequest, RequestKind, JobType, Payload, DedupeKey,
  ErasureReason, with_transaction_ok,
}
use homeplate.Outbox.Enqueue.{enqueue}
use homeplate.Outbox.Keys.{has_key, KeepsKeys, Extends-KeepsKeys, enqueue-Defers}
use homeplate.Privacy.Requests.{create_request, new_request, no_detail, is_open_for}
use homeplate.Privacy.Service.{Windows, add_days}
use homeplate.Privacy.Exporting.{
  is_flagged, unflagged, is_stale, is_staler, find_inactive_users, flag_inactive, flag_all,
  MonthsBefore, run_inactivity_sweep,
}

-- What the flags leave: no open notice and no key is lost, and the accounts are as they were.
pub record Grows (db db' : Db) : Type 0 where
  pub open_notices :
      (u : ℕ)
      → count (is_open_for u RequestKind.inactivity_notice) db.data_requests
        ≤ count (is_open_for u RequestKind.inactivity_notice) db'.data_requests
  pub keys : KeepsKeys db.jobs db'.jobs
  pub users : db'.users ≡ db.users

module _ (env : Env) (w : Windows) where
  -- An account with its open notice and the job of it.
  abbrev pub HasNotice : (user request : ℕ) → Db → Type 0
  HasNotice user request db =
      (is_flagged user db ≡ true) × (has_key (DedupeKey.erasure_notice request) db.jobs ≡ true)

  flag_inactive_ok :
      (user : ℕ) (db : Db)
      → (row : ℕ × DataRequest) × (db' : Db) × (flag_inactive env w user db ≡ (ok row, db'))
        × HasNotice user row.0 db'
        × Grows db db'
  unfolding flag_inactive create_request
  flag_inactive_ok user db =
      let r =
        new_request env user RequestKind.inactivity_notice (add_days env.date_now w.erasure_days)
          (record no_detail { flagged_at = some env.date_now }) in
      let payload = Payload.erasure_ref user db.next_id ErasureReason.inactivity in
      let key = DedupeKey.erasure_notice db.next_id in
      let mid : Db = record db {
        data_requests = (db.next_id, r) ∷ db.data_requests;
        next_id = suc db.next_id;
      } in
      let body : Tx (ℕ × DataRequest) =
        create_request env user RequestKind.inactivity_notice (add_days env.date_now w.erasure_days)
          (record no_detail { flagged_at = some env.date_now })
        >>= λ row.
            enqueue env JobType.account_erasure
              (Payload.erasure_ref user row.0 ErasureReason.inactivity)
              (some (DedupeKey.erasure_notice row.0)) (some env.date_now)
            >> pure row in
      let (e, jobs, next, queued, _, keeps, mine) =
        enqueue-Defers (λ k j. Unit {0}) env JobType.account_erasure payload key (some env.date_now)
          mid tt in
      let after : Db = record mid { jobs = jobs; next_id = next } in
      let ran : body db ≡ (ok (db.next_id, r), after) = ground (arith, queued) in
      (
        (db.next_id, r),
        after,
        with_transaction_ok body ran,
        (ground (arith, ==_refl user), mine),
        record { open_notices = λ u. omega arith; keys = Extends-KeepsKeys keeps; users = refl },
      )

  -- The flags of a list of users.
  flag_all_ok :
      (t : Table User) (db : Db)
      → (flagged : List (ℕ × ℕ)) × (db' : Db) × (flag_all env w t db ≡ (ok flagged, db'))
        × Grows db db'
        × ((user request : ℕ) → lookup user flagged ≡ some request → HasNotice user request db')
        × ((user : ℕ) → is_some (lookup user flagged) ≡ is_some (lookup user t))
  flag_all_ok [] db = (
    [],
    db,
    refl,
    record { open_notices = λ u. omega arith; keys = λ k h. h; users = refl },
    (λ user request e. absurd (ground (arith, e))),
    (λ user. refl),
  )
  flag_all_ok ((id, u) ∷ t) db =
      let (row, mid, ran, (is, queued), grows) = flag_inactive_ok id db in
      let (rest, after, rest_ran, later, each, same) = flag_all_ok t mid in
      (
        (id, row.0) ∷ rest,
        after,
        ground (arith, ran, rest_ran),
        record {
          open_notices = λ v. omega (arith, grows.open_notices v, later.open_notices v);
          keys = λ k h. later.keys k (grows.keys k h);
          users = later.users ∙ grows.users;
        },
        (λ user request e. elim (Bool-cases (user == id)) [
          | inr apart ↦ each user request (ground (arith, e, apart))
          | inl here ↦
              let who : id ≡ user = ground arith in
              let what : row.0 ≡ request = ground (arith, e, here) in
              let flag : is_flagged id after ≡ true = ground (arith, later.open_notices id, is) in
              (
                ap (λ k. is_flagged k after) (sym who) ∙ flag,
                ap (λ q. has_key (DedupeKey.erasure_notice q) after.jobs) (sym what)
                    ∙ later.keys (DedupeKey.erasure_notice row.0) queued,
              )
        ]),
        (λ user. ground (arith, same user)),
      )

-- A user with an open notice is not found again.
unflagged-none :
    (db : Db) (user : ℕ) (t : Table User)
    → is_flagged user db ≡ true
    → lookup user (unflagged db t) ≡ none
unflagged-none db user [] flag = refl
unflagged-none db user ((id, u) ∷ t) flag = elim (Bool-cases (user == id)) [
  | inr apart ↦ ground (arith, unflagged-none db user t flag, apart)
  | inl here ↦
      let who : id ≡ user = ground arith in
      let flag' : is_flagged id db ≡ true = ap (λ k. is_flagged k db) who ∙ flag in
      ground (arith, unflagged-none db user t flag, flag')
]

insert-none :
    (user : ℕ) (row : ℕ × User) (t : Table User)
    → (user == row.0) ≡ false
    → lookup user t ≡ none
    → lookup user (insert_by is_staler row t) ≡ none
insert-none user row [] apart gone = ground (arith, apart)
insert-none user row ((j, v) ∷ t) apart gone = elim (Bool-cases (is_staler row (j, v))) [
  | inl before ↦ ground (arith, before, apart, gone)
  | inr after ↦ elim (Bool-cases (user == j)) [
    | inl here ↦ absurd (ground (arith, gone, here))
    | inr there ↦
        ground (arith, after, there, insert-none user row t apart (ground (arith, gone, there)))
  ]
]

order-none :
    (user : ℕ) (t : Table User) → lookup user t ≡ none → lookup user (order_by is_staler t) ≡ none
order-none user [] gone = refl
order-none user ((j, v) ∷ t) gone = elim (Bool-cases (user == j)) [
  | inl here ↦ absurd (ground (arith, gone, here))
  | inr apart ↦
      insert-none user (j, v) (order_by is_staler t) apart
        (order-none user t (ground (arith, gone, apart)))
]

take-none : (user n : ℕ) (t : Table User) → lookup user t ≡ none → lookup user (take n t) ≡ none
take-none user zero t gone = refl
take-none user (suc n) [] gone = refl
take-none user (suc n) ((j, v) ∷ t) gone = elim (Bool-cases (user == j)) [
  | inl here ↦ absurd (ground (arith, gone, here))
  | inr apart ↦ ground (arith, apart, take-none user n t (ground (arith, gone, apart)))
]

not_found_again :
    (cutoff more : ℕ) (db : Db) (user : ℕ)
    → is_flagged user db ≡ true
    → lookup user (find_inactive_users cutoff more db) ≡ none
unfolding find_inactive_users
not_found_again cutoff more db user flag =
    let stale = unflagged db (select (is_stale cutoff) db.users) in
    take-none user more (order_by is_staler stale)
      (order-none user stale (unflagged-none db user (select (is_stale cutoff) db.users) flag))

-- The sweep always succeeds, leaves the users as they were, and answers with just those that it
-- found. Each of these has an open notice then, and no sweep that follows, at any later time and
-- with any limit, finds one of them while that is open.
pub run_inactivity_sweep_once :
    (env : Env) (w : Windows) (before : MonthsBefore) (limit : ℕ) (db : Db)
    → (flagged : List (ℕ × ℕ)) × (db' : Db) × (run_inactivity_sweep env w before limit db
        ≡ (ok flagged, db'))
      × (db'.users ≡ db.users)
      × ((user : ℕ)
          → is_some (lookup user flagged)
            ≡ is_some (
                lookup user
                  (find_inactive_users (before env.date_now w.inactivity_months) limit db)))
      × ((user : ℕ) → (is_some (lookup user flagged) && not (is_flagged user db')) ≡ false)
      × ((user cutoff more : ℕ)
          → (is_some (lookup user flagged)
              && is_some (lookup user (find_inactive_users cutoff more db')))
            ≡ false)
unfolding run_inactivity_sweep
run_inactivity_sweep_once env w before limit db =
    let found = find_inactive_users (before env.date_now w.inactivity_months) limit db in
    let (flagged, db', ran, grows, each, same) = flag_all_ok env w found db in
    (
      flagged,
      db',
      ran,
      grows.users,
      same,
      (λ user. elim (Option-cases (lookup user flagged)) [
        | inl other ↦ ground (arith, other)
        | inr (request, there) ↦ ground (arith, there, (each user request there).0)
      ]),
      (λ user cutoff more. elim (Option-cases (lookup user flagged)) [
        | inl other ↦ ground (arith, other)
        | inr (request, there) ↦
            let (flag, _) = each user request there in
            ground (arith, there, not_found_again cutoff more db' user flag)
      ]),
    )
