-- ===== src/Moderation/Deciding.antt =====
-- decide: what a moderator's decision writes, and when it is refused.
use homeplate.Base.{
  refl, ℕ, ◌≡◌, sym, ap, ◌∙◌, true, false, Option, none, some, ◌∷◌, arith, inl, inr, Option-cases,
  Bool-cases, ==_refl, ◌⊎◌, ◌↔◌,
}
use homeplate.Table.{lookup, modify}
use homeplate.Table.Laws.{lookup-modify}
use homeplate.Database.{
  QueueStatus, ModerationStatus, DecisionOutcome, Decision, Actor, Auth, Db, Env, Tx, Result, ok,
  err, ◌>>=◌, some_or_throw, query, Category, Note, QueueItem, Failure, with_transaction_ok,
  with_transaction_err,
}
use homeplate.Moderation.Repo.{
  load_content, content_in, decision_row, resolve_queue_item, resolve_at, is_resolved,
  lock_queue_item,
}
use homeplate.Moderation.Decision.{
  Choice, Decided, status_of, human_decision, decide_locked, decide,
}
use homeplate.Moderation.Writing.{
  flipped, recorded, has_row, with_status, set_moderation_status_ok, insert_decision_ok,
  load_content-flipped,
}
use homeplate.Moderation.Publication.{load_content-recorded, load_content-queued}
use homeplate.Moderation.Writing.{queue-flipped, decisions-flipped, has_row-recorded}

resolve_queue_item_ok :
    (env : Env) (id decision moderator : ℕ) (db : Db) {q : QueueItem}
    → lookup id db.queue ≡ some q
    → is_resolved q.status ≡ false
    → resolve_queue_item env id decision moderator db ≡ (
      ok (some (resolve_at env decision moderator q)),
      record db { queue = modify id (resolve_at env decision moderator) db.queue },
    )
unfolding resolve_queue_item
resolve_queue_item_ok env id decision moderator db found live = ground arith

-- The item as the moderator leaves it: resolved now, with the decision and its author.
abbrev pub settled_item : Env → (decision moderator : ℕ) → QueueItem → QueueItem
settled_item env decision moderator q = record {
  content_type = q.content_type;
  content_id = q.content_id;
  reason = q.reason;
  status = QueueStatus.resolved;
  assigned_to = some moderator;
  decision_id = some decision;
  created_at = q.created_at;
  resolved_at = some env.now;
}

-- The status that a choice stands for, and its outcome.
abbrev pub chosen : Choice → ModerationStatus × DecisionOutcome
chosen Choice.approve = (ModerationStatus.approved, DecisionOutcome.approved)
chosen Choice.reject = (ModerationStatus.rejected, DecisionOutcome.rejected)

status_of-chosen : (choice : Choice) → status_of choice ≡ (chosen choice).0
status_of-chosen Choice.approve = refl
status_of-chosen Choice.reject = refl

-- The row of a moderator's decision on the content of an item.
abbrev pub ruling : Env → Auth → Choice → Category → Option Note → QueueItem → Decision
ruling env auth choice category note q = record {
  content_type = q.content_type;
  content_id = q.content_id;
  category = category;
  confidence = none;
  outcome = (chosen choice).1;
  decided_by = Actor.human;
  decided_by_user_id = some auth.user_id;
  model_id = none;
  note = note;
  created_at = env.now;
}

decision_row-ruling :
    (env : Env) (auth : Auth) (choice : Choice) (category : Category) (note : Option Note)
    (q : QueueItem)
    → decision_row env q.content_type q.content_id (human_decision auth choice category note)
      ≡ ruling env auth choice category note q
decision_row-ruling env auth Choice.approve category comment q = refl
decision_row-ruling env auth Choice.reject category comment q = refl

module _ (env : Env) (auth : Auth) (item : ℕ) (choice : Choice) (category : Category)
    (note : Option Note) where
  -- The database with the decision on one item.
  abbrev pub decided : QueueItem → Db → Db
  decided q db =
      let flip =
        flipped q.content_type q.content_id (status_of choice) (
          recorded env q.content_type q.content_id (human_decision auth choice category note) db) in
      record flip { queue = modify item (resolve_at env db.next_id auth.user_id) db.queue }

  abbrev pub answer : QueueItem → Db → Decided
  answer q db = record {
    item = some (resolve_at env db.next_id auth.user_id q);
    decision_id = db.next_id;
    content_exists = has_row q.content_type q.content_id db;
  }

  decide_locked_ok :
      (db : Db) {q : QueueItem}
      → lookup item db.queue ≡ some q
      → is_resolved q.status ≡ false
      → decide_locked env auth item choice category note q db ≡ (ok (answer q db), decided q db)
  decide_locked_ok db {q} found live =
      let d = human_decision auth choice category note in
      let before = recorded env q.content_type q.content_id d db in
      let flip = flipped q.content_type q.content_id (status_of choice) before in
      let queued = queue-flipped q.content_type q.content_id (status_of choice) before in
      ground (
        arith,
        insert_decision_ok env q.content_type q.content_id d db,
        set_moderation_status_ok q.content_type q.content_id (status_of choice) before,
        has_row-recorded env q.content_type q.content_id d db,
        queued,
        resolve_queue_item_ok env item db.next_id auth.user_id flip
            (ap (lookup item) queued ∙ found) live,
      )

  pub decide_ok :
      (db : Db) {q : QueueItem}
      → auth.is_moderator ≡ true
      → lookup item db.queue ≡ some q
      → is_resolved q.status ≡ false
      → decide env auth item choice category note db ≡ (ok (answer q db), decided q db)
  unfolding decide
  decide_ok db {q} role found live =
      let body : Tx Decided = query (lock_queue_item item) >>= λ found.
      some_or_throw found Failure.queue_item_not_found >>= λ q.
      decide_locked env auth item choice category note q in
      let ran : body db ≡ (ok (answer q db), decided q db) =
        ground (arith, decide_locked_ok db found live) in
      ground (arith, with_transaction_ok body ran)

  -- A moderator's decision on an unresolved item sets the status of its content to the choice,
  -- whatever that status was, adds the decision by that moderator to the decisions, and resolves
  -- the item with both. The rows of both are written out.
  pub decide_settles :
      (db : Db) (q : QueueItem)
      → auth.is_moderator ≡ true
      → lookup item db.queue ≡ some q
      → is_resolved q.status ≡ false
      → let (answer_, after) = decide env auth item choice category note db in
        (answer_
          ≡ ok (record {
            item = some (settled_item env db.next_id auth.user_id q);
            decision_id = db.next_id;
            content_exists = has_row q.content_type q.content_id db;
          }))
        × (load_content q.content_type q.content_id after
            ≡ content_in
                (with_status (chosen choice).0)
                (load_content q.content_type q.content_id db))
        × (after.decisions ≡ (db.next_id, ruling env auth choice category note q) ∷ db.decisions)
        × (lookup item after.queue ≡ some (settled_item env db.next_id auth.user_id q))
  decide_settles db q role found live =
      let d = human_decision auth choice category note in
      let before = recorded env q.content_type q.content_id d db in
      let flip = flipped q.content_type q.content_id (status_of choice) before in
      let ran = decide_ok db role found live in
      (
        ap (λ p. p.0) ran,
        ap (λ p. load_content q.content_type q.content_id p.1) ran
            ∙ load_content-queued q.content_type q.content_id flip
                (modify item (resolve_at env db.next_id auth.user_id) db.queue) flip.next_id
            ∙ load_content-flipped q.content_type q.content_id (status_of choice) before
            ∙ ap (content_in (with_status (status_of choice))) (
                load_content-recorded env q.content_type q.content_type q.content_id q.content_id d
                  db)
            ∙ ap (λ st. content_in (with_status st) (load_content q.content_type q.content_id db))
                (status_of-chosen choice),
        ap (λ (p : Result Decided × Db). p.1.decisions) ran
            ∙ decisions-flipped q.content_type q.content_id (status_of choice) before
            ∙ ap (λ row. (db.next_id, row) ∷ db.decisions)
                (decision_row-ruling env auth choice category note q),
        ap (λ (p : Result Decided × Db). lookup item p.1.queue) ran
            ∙ ground (
              arith,
              lookup-modify item item (resolve_at env db.next_id auth.user_id) db.queue,
              ==_refl item,
            ),
      )

  -- Why a decision is refused.
  abbrev pub DecideRefused : Failure → Db → Type 0
  DecideRefused x db =
      ((x ≡ Failure.not_moderator) × (auth.is_moderator ≡ false))
      ⊎ (((x ≡ Failure.queue_item_not_found)
            × (auth.is_moderator ≡ true)
            × (lookup item db.queue ≡ none))
          ⊎ ((q : QueueItem) × (x ≡ Failure.queue_item_resolved)
              × (auth.is_moderator ≡ true)
              × (lookup item db.queue ≡ some q)
              × (is_resolved q.status ≡ true)))

  decide_body : Tx Decided
  decide_body = query (lock_queue_item item) >>= λ found.
      some_or_throw found Failure.queue_item_not_found >>= λ q.
      decide_locked env auth item choice category note q

  refused_in_body :
      (x : Failure) (db : Db)
      → auth.is_moderator ≡ true
      → decide_body db ≡ (err x, db)
      → decide env auth item choice category note db ≡ (err x, db)
  unfolding decide decide_body
  refused_in_body x db role ran = ground (arith, with_transaction_err decide_body ran)

  refused_with :
      (x y : Failure) (db : Db)
      → decide env auth item choice category note db ≡ (err y, db)
      → (x ≡ y) ↔ DecideRefused x db
      → (decide env auth item choice category note db ≡ (err x, db)) ↔ DecideRefused x db
  refused_with x y db ran why =
      ((λ e. why.0 (ground arith)), (λ r. ran ∙ ap (λ z. (err z, db)) (sym (why.1 r))))

  -- A decision throws `x` exactly when `x` is the refusal of a user who is no moderator, of an
  -- item that is not there, or of one that is resolved; it has then written nothing.
  pub DecideRefused-iff :
      (x : Failure) (db : Db)
      → (decide env auth item choice category note db ≡ (err x, db)) ↔ DecideRefused x db
  unfolding decide decide_body
  DecideRefused-iff x db = elim (Bool-cases auth.is_moderator) [
    | inr other ↦ refused_with x Failure.not_moderator db (ground arith) (
      (λ e. inl (e, other)),
      (λ r. elim r [
        | inl (e, _) ↦ e
        | inr (inl (_, role, _)) ↦ absurd (ground arith)
        | inr (inr (_, _, role, _, _)) ↦ absurd (ground arith)
      ]),
    )
    | inl role ↦ elim (Option-cases (lookup item db.queue)) [
      | inl gone ↦
          let ran : decide_body db ≡ (err Failure.queue_item_not_found, db) = ground arith in
          refused_with x Failure.queue_item_not_found db (refused_in_body _ db role ran) (
            (λ e. inr (inl (e, role, gone))),
            (λ r. elim r [
              | inl (_, other) ↦ absurd (ground arith)
              | inr (inl (e, _, _)) ↦ e
              | inr (inr (_, _, _, found, _)) ↦ absurd (ground arith)
            ]),
          )
      | inr (q, found) ↦ elim (Bool-cases (is_resolved q.status)) [
        | inl done ↦
            let ran : decide_body db ≡ (err Failure.queue_item_resolved, db) = ground arith in
            refused_with x Failure.queue_item_resolved db (refused_in_body _ db role ran) (
              (λ e. inr (inr (q, e, role, found, done))),
              (λ r. elim r [
                | inl (_, other) ↦ absurd (ground arith)
                | inr (inl (_, _, gone)) ↦ absurd (ground arith)
                | inr (inr (_, e, _, _, _)) ↦ e
              ]),
            )
        | inr live ↦
            let ran = decide_ok db role found live in
            (
              (λ e. absurd (ground arith)),
              (λ r. elim r [
                | inl (_, other) ↦ absurd (ground arith)
                | inr (inl (_, _, gone)) ↦ absurd (ground arith)
                | inr (inr (p, _, _, there, done)) ↦
                    let same : p ≡ q = ground arith in absurd (ground arith)
              ]),
            )
      ]
    ]
  ]

  -- A decision is written, or refused with nothing written.
  pub decide-cases :
      (db : Db)
      → ((q : QueueItem) × (decide env auth item choice category note db
            ≡ (ok (answer q db), decided q db)))
        ⊎ ((x : Failure) × (decide env auth item choice category note db ≡ (err x, db)))
  unfolding decide decide_body
  decide-cases db = elim (Bool-cases auth.is_moderator) [
    | inr other ↦ inr (Failure.not_moderator, ground arith)
    | inl role ↦ elim (Option-cases (lookup item db.queue)) [
      | inl gone ↦
          let ran : decide_body db ≡ (err Failure.queue_item_not_found, db) = ground arith in
          inr (Failure.queue_item_not_found, refused_in_body _ db role ran)
      | inr (q, found) ↦ elim (Bool-cases (is_resolved q.status)) [
        | inl done ↦
            let ran : decide_body db ≡ (err Failure.queue_item_resolved, db) = ground arith in
            inr (Failure.queue_item_resolved, refused_in_body _ db role ran)
        | inr live ↦ inl (q, decide_ok db role found live)
      ]
    ]
  ]
