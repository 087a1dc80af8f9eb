-- ===== src/Privacy/Scheduling.antt =====
-- The request of a deletion as a whole: who may make it, what it schedules, and what a repeat does.
use homeplate.Base.{
  refl, ℕ, ◌≡◌, sym, ap, ◌∙◌, true, false, Option, some, arith, inl, inr, ◌⊎◌, Bool-cases,
  Option-cases, is_some,
}
use mathlib.Core.Path.{subst}
use homeplate.Table.{Table, lookup, modify, select}
use homeplate.Table.Laws.{IsUnique}
use homeplate.Table.Updates.{update_where-modify, modify-fixed, lookup-modify_hit}
use homeplate.Database.{
  Db, Env, ok, err, User, DataRequest, RequestKind, RequestCopy, Job, JobType, Payload, DedupeKey,
  ErasureReason, Failure, with_transaction_ok, with_transaction_err,
}
use homeplate.Outbox.Enqueue.{enqueue, find_by_key}
use homeplate.Outbox.Keys.{has_key, Extends, IsQueued, enqueue-Defers}
use homeplate.Auth.Sessions.{Scan}
use homeplate.Auth.Revocation.{
  IsComplete, Ended, sessions_after, sessions_after-Ended, destroy_sessions-ok,
}
use homeplate.Privacy.Requests.{
  get_user, is_gone, mark_deleted, deleted, find_open_request, newest, is_open_for,
  serialize_request,
}
use homeplate.Privacy.Service.{Windows, open_erasure_request, mark_and_schedule, request_deletion}
use homeplate.Privacy.Deletion.{marked, Opens, open_erasure_request_ok}

module _ (env : Env) (w : Windows) (user : ℕ) where
  abbrev pub scheduled : Db → Table DataRequest → Table Job → ℕ → Db
  scheduled db requests jobs next = record db {
    users = modify user (deleted env.date_now) db.users;
    data_requests = requests;
    jobs = jobs;
    next_id = next;
  }

  -- The job of the erasure: for this user and request, due when the request is.
  abbrev pub DeletionJob : ℕ × DataRequest → DedupeKey → Job → Type 0
  DeletionJob row =
      IsQueued (DedupeKey.erasure_deletion user) JobType.account_erasure
        (Payload.erasure_ref user row.0 ErasureReason.deletion) row.1.due_at

  mark_and_schedule_ok :
      (db : Db)
      → IsUnique db.data_requests
      → is_gone (lookup user db.users) ≡ false
      → (row : ℕ × DataRequest) × (requests : Table DataRequest) × (jobs : Table Job) × (next : ℕ)
        × (mark_and_schedule env w user db ≡ (ok row, scheduled db requests jobs next))
        × Opens env w user db row requests
        × (has_key (DedupeKey.erasure_deletion user) jobs ≡ true)
        × Extends (DeletionJob row) db.jobs jobs
  unfolding mark_and_schedule mark_deleted get_user
  mark_and_schedule_ok db u there =
      let before = marked env w user db in
      let (row, was, requests, next, opened, is) = open_erasure_request_ok env w user before u in
      let mid : Db = record before { data_requests = requests; next_id = next } in
      let (e, jobs, last, queued, _, keeps, mine) =
        enqueue-Defers (DeletionJob row) env JobType.account_erasure
          (Payload.erasure_ref user row.0 ErasureReason.deletion) (DedupeKey.erasure_deletion user)
          (some row.1.due_at) mid (refl, (refl, refl, refl, refl, refl)) in
      let marks : (mark_deleted user env.date_now db).1 ≡ before =
        λ i. record db { users = update_where-modify user (deleted env.date_now) db.users i } in
      (row, requests, jobs, last, ground (arith, there, marks, opened, queued), is, mine, keeps)

  -- The scheduled deletion with the sessions ended.
  abbrev pub closed : Scan → Option ℕ → Db → Db
  closed scan token db = record db { sessions = sessions_after env scan user token db }

  request_deletion_refused :
      (scan : Scan) (token : Option ℕ) (db : Db)
      → is_gone (lookup user db.users) ≡ true
      → request_deletion env w scan user token db ≡ (err Failure.not_found, db)
  unfolding request_deletion mark_and_schedule get_user
  request_deletion_refused scan token db gone =
      let thrown : mark_and_schedule env w user db ≡ (err Failure.not_found, db) = ground arith in
      ground (arith, with_transaction_err (mark_and_schedule env w user) thrown)

  -- DELETE /api/users/me is for a user that is there and not anonymized, and is refused as not
  -- found otherwise, with nothing written. It marks the account and leaves an open erasure request
  -- of the user, which it answers with. No earlier job is lost, and the key of the user's deletion
  -- has a job: the one that it had before, or a new one for this user and request that is due when
  -- the request is. Where SCAN is complete, it ends the session of the call and every session of the
  -- user, and no other.
  pub request_deletion_branches :
      (scan : Scan) (token : Option ℕ) (db : Db)
      → IsUnique db.data_requests
      → IsComplete scan
      → ((row : ℕ × DataRequest) × (requests : Table DataRequest) × (jobs : Table Job) × (next : ℕ)
          × (request_deletion env w scan user token db ≡ (
            ok (serialize_request row, row.1.due_at),
            closed scan token (scheduled db requests jobs next),
          ))
          × (is_gone (lookup user db.users) ≡ false)
          × Opens env w user db row requests
          × (has_key (DedupeKey.erasure_deletion user) jobs ≡ true)
          × Extends (DeletionJob row) db.jobs jobs
          × Ended env user token db.sessions
              (sessions_after env scan user token (scheduled db requests jobs next)))
        ⊎ ((request_deletion env w scan user token db ≡ (err Failure.not_found, db))
            × (is_gone (lookup user db.users) ≡ true))
  unfolding request_deletion
  request_deletion_branches scan token db u complete =
      elim (Bool-cases (is_gone (lookup user db.users))) [
        | inl gone ↦ inr (request_deletion_refused scan token db gone, gone)
        | inr there ↦
            let (row, requests, jobs, next, ran, is, mine, keeps) =
              mark_and_schedule_ok db u there in
            let (n, ended) =
              destroy_sessions-ok env scan user token (scheduled db requests jobs next) in
            inl (
              row,
              requests,
              jobs,
              next,
              ground (arith, with_transaction_ok (mark_and_schedule env w user) ran, ended),
              there,
              is,
              mine,
              keeps,
              sessions_after-Ended env scan user token (scheduled db requests jobs next) complete,
            )
      ]

-- A database where the deletion of a user stands already.
abbrev IsScheduled : ℕ → ℕ × DataRequest → Db → Type 0
IsScheduled user row db =
    ((u : User) × (lookup user db.users ≡ some u)
      × (is_some u.anonymized_at ≡ false)
      × (is_some u.deleted_at ≡ true))
    × (newest (select (is_open_for user RequestKind.erasure) db.data_requests) ≡ some row)
    × (has_key (DedupeKey.erasure_deletion user) db.jobs ≡ true)

deleted_twice : (at : ℕ) (u : User) → is_some u.deleted_at ≡ true → deleted at u ≡ u
deleted_twice at u gone = elim (Option-cases u.deleted_at) [
  | inl live ↦ absurd (ground (arith, gone))
  | inr (d, is) ↦ ground (arith, is)
]

-- The account under its mark.
marked_account :
    (at user : ℕ) (users : Table User)
    → is_gone (lookup user users) ≡ false
    → (u : User) × (lookup user (modify user (deleted at) users) ≡ some u)
      × (is_some u.anonymized_at ≡ false)
      × (is_some u.deleted_at ≡ true)
marked_account at user users there = elim (Option-cases (lookup user users)) [
  | inl gone ↦ absurd (ground (arith, there))
  | inr (u, found) ↦ (
    deleted at u,
    lookup-modify_hit user (deleted at) users found,
    ground (arith, there, found),
    elim (Option-cases u.deleted_at) [ inl live ↦ ground arith | inr (d, is) ↦ ground arith ],
  )
]

scheduled_again :
    (env : Env) (w : Windows) (user : ℕ) (row : ℕ × DataRequest) (db : Db)
    → IsScheduled user row db
    → mark_and_schedule env w user db ≡ (ok row, db)
unfolding mark_and_schedule mark_deleted get_user open_erasure_request find_open_request enqueue
scheduled_again env w user row db ((u, there, kept, gone), found, queued) =
    let marks : (mark_deleted user env.date_now db).1 ≡ db = λ i. record db {
      users =
          (update_where-modify user (deleted env.date_now) db.users
              ∙ modify-fixed user (deleted env.date_now) db.users
                  (λ v e. deleted_twice env.date_now v (ground (arith, there, e, gone))))
            i;
    } in
    elim (Option-cases (find_by_key (DedupeKey.erasure_deletion user) db.jobs)) [
      | inl none_ ↦ absurd (ground (arith, queued))
      | inr (job, there_) ↦ ground (arith, there, kept, marks, found, there_)
    ]

-- A deletion that is asked for again, at any later time and from any session, gives the same answer
-- and adds no request and no job, given that SCAN is complete; it ends the session of the call and
-- the sessions that the user has by then, and nothing else changes.
pub request_deletion_repeat :
    (env later : Env) (w w' : Windows) (scan scan' : Scan) (user : ℕ) (token token' : Option ℕ)
    (answer : RequestCopy × ℕ) (db db' : Db)
    → IsUnique db.data_requests
    → IsComplete scan
    → IsComplete scan'
    → request_deletion env w scan user token db ≡ (ok answer, db')
    → (request_deletion later w' scan' user token' db'
        ≡ (ok answer, record db' { sessions = sessions_after later scan' user token' db' }))
      × Ended later user token' db'.sessions (sessions_after later scan' user token' db')
unfolding request_deletion
request_deletion_repeat env later w w' scan scan' user token token' answer db db' u complete
      complete' ran =
    elim (request_deletion_branches env w user scan token db u complete) [
      | inr (refused, gone) ↦ absurd (ground (arith, refused, ran))
      | inl (row, requests, jobs, next, did, there, (_, _, found), queued, _, _) ↦
          let is : db' ≡ closed env w user scan token (scheduled env w user db requests jobs next) =
            ap (λ q. q.1) (sym ran ∙ did) in
          let is_answer : answer ≡ (serialize_request row, row.1.due_at) =
            ground (arith, ran, did) in
          let stands : IsScheduled user row db' =
            subst (λ (e : Db). IsScheduled user row e) (sym is)
              (marked_account env.date_now user db.users there, found, queued) in
          let again = scheduled_again later w' user row db' stands in
          let (n, ended) = destroy_sessions-ok later scan' user token' db' in
          (
            ground (
              arith,
              with_transaction_ok (mark_and_schedule later w' user) again,
              ended,
              is_answer,
            ),
            sessions_after-Ended later scan' user token' db' complete',
          )
    ]
