-- ===== src/Moderation/Overtaking.antt =====
-- processScan around other transactions: a redelivered scan, a scan behind a decision, and a scan
-- that a decision overtakes between its reading and its writing.
use mathlib.Core.Path.{subst}
use homeplate.Base.{
  ℕ, ◌≡◌, refl, ap, ◌∙◌, true, false, Option, none, some, arith, inl, inr, Option-cases, is_some,
  ==_refl,
}
use homeplate.Table.{lookup}
use homeplate.Database.{
  Auth, Db, Env, Result, ok, ContentType, ModerationStatus, Category, Note, QueueItem,
}
use homeplate.Moderation.Repo.{Content, load_content, find_open, is_resolved, content_in, type_tag}
use homeplate.Moderation.Service.{
  Scanner, Classification, Verdict, Escalation, Outcome, begin_scan, finish_scan, process_scan,
  is_pending, rejection, full_confidence, approval,
}
use homeplate.Moderation.Decision.{Choice, decide}
use homeplate.Moderation.Writing.{recorded, with_status}
use homeplate.Moderation.Clearing.{Status-cases, begin_scan_approves_iff}
use homeplate.Moderation.Scanning.{written, acts, finish_scan_ok, begin_scan-cases, begin_scan-acts}
use homeplate.Moderation.Publication.{load_content-written, process_scan_ok, process_scan_err}
use homeplate.Moderation.Writing.{queue-flipped}
use homeplate.Moderation.Deciding.{decide_settles}

-- A scan of a content that is no longer pending returns without a write.
pub process_scan_decided :
    (s : Scanner) (env : Env) (type : ContentType) (id : ℕ) (db : Db) (content : Content)
    → load_content type id db ≡ some content
    → is_pending content.moderation_status ≡ false
    → process_scan s env type id db ≡ (ok Outcome.skipped_decided, db)
unfolding begin_scan
process_scan_decided s env type id db content found decided =
    process_scan_ok s env type id Verdict.skipped_decided db (ground arith)

process_scan_missing :
    (s : Scanner) (env : Env) (type : ContentType) (id : ℕ) (db : Db)
    → load_content type id db ≡ none
    → process_scan s env type id db ≡ (ok Outcome.skipped_missing, db)
unfolding begin_scan
process_scan_missing s env type id db gone =
    process_scan_ok s env type id Verdict.skipped_missing db (ground arith)

-- Behind an open item nothing is filed.
written-queue_open :
    (env : Env) (type : ContentType) (id : ℕ) (v : Verdict) (db : Db)
    → is_some (find_open type id db.queue) ≡ true
    → (written env type id v db).queue ≡ db.queue
written-queue_open env type id Verdict.skipped_missing db open_ = refl
written-queue_open env type id Verdict.skipped_decided db open_ = refl
written-queue_open env type id (Verdict.rejected rule) db open_ =
    queue-flipped type id ModerationStatus.rejected
      (recorded env type id (rejection rule full_confidence) db)
written-queue_open env type id (Verdict.escalated e) db open_ =
    elim (Option-cases (find_open type id db.queue)) [
      | inl free ↦ absurd (ground arith)
      | inr (row, there) ↦ ground arith
    ]
written-queue_open env type id (Verdict.approved c) db open_ =
    queue-flipped type id ModerationStatus.approved (recorded env type id (approval c) db)

process_scan-queue_open :
    (s : Scanner) (env : Env) (type : ContentType) (id : ℕ) (db : Db)
    → is_some (find_open type id db.queue) ≡ true
    → (process_scan s env type id db).1.queue ≡ db.queue
process_scan-queue_open s env type id db open_ = elim (begin_scan-cases s env type id db) [
  | inl (v, ran) ↦
      ap (λ (p : Result Outcome × Db). p.1.queue) (process_scan_ok s env type id v db ran)
      ∙ written-queue_open env type id v db open_
  | inr (x, content, ran, _, _, _) ↦
      ap (λ (p : Result Outcome × Db). p.1.queue) (process_scan_err s env type id db ran)
]

filed-is_open :
    (env : Env) (type : ContentType) (id : ℕ) (e : Escalation) (db : Db)
    → is_some (find_open type id (written env type id (Verdict.escalated e) db).queue) ≡ true
filed-is_open env type id e db = elim (Option-cases (find_open type id db.queue)) [
  | inl free ↦ ground (arith, ==_refl id, ==_refl (type_tag type))
  | inr (row, there) ↦ ground arith
]

settled-queue :
    (s : Scanner) (env : Env) (type : ContentType) (id : ℕ) (db : Db) (content : Content)
    → load_content type id db ≡ some content
    → is_pending content.moderation_status ≡ false
    → (process_scan s env type id db).1.queue ≡ db.queue
settled-queue s env type id db content found decided =
    ap (λ (p : Result Outcome × Db). p.1.queue)
      (process_scan_decided s env type id db content found decided)

written-again :
    (s : Scanner) (env env' : Env) (type : ContentType) (id : ℕ) (v : Verdict) (db : Db)
    {content : Content}
    → load_content type id db ≡ some content
    → acts v ≡ true
    → (process_scan s env' type id (written env type id v db)).1.queue
      ≡ (written env type id v db).queue
written-again s env env' type id Verdict.skipped_missing db found does = absurd (ground arith)
written-again s env env' type id Verdict.skipped_decided db found does = absurd (ground arith)
written-again s env env' type id (Verdict.rejected rule) db found does =
    settled-queue s env' type id (written env type id (Verdict.rejected rule) db) _
      (load_content-written env type id (Verdict.rejected rule) db found) refl
written-again s env env' type id (Verdict.escalated e) db found does =
    process_scan-queue_open s env' type id (written env type id (Verdict.escalated e) db)
      (filed-is_open env type id e db)
written-again s env env' type id (Verdict.approved c) db found does =
    settled-queue s env' type id (written env type id (Verdict.approved c) db) _
      (load_content-written env type id (Verdict.approved c) db found) refl

-- A scan job that is delivered again after its scan returned files no item: the queue stays as
-- the first scan left it, whatever the classifier, the mode or the clock are by then.
pub process_scan_again :
    (s s' : Scanner) (env env' : Env) (type : ContentType) (id : ℕ) (db db' : Db) (o : Outcome)
    → process_scan s env type id db ≡ (ok o, db')
    → (process_scan s' env' type id db').1.queue ≡ db'.queue
process_scan_again s s' env env' type id db db' o e =
    elim (Option-cases (load_content type id db)) [
      | inl gone ↦
          let first = process_scan_missing s env type id db gone in
          let same : db' ≡ db = ground arith in
          let found : load_content type id db' ≡ none = ap (load_content type id) same ∙ gone in
          ap (λ (p : Result Outcome × Db). p.1.queue)
            (process_scan_missing s' env' type id db' found)
      | inr (content, found) ↦ elim (Status-cases content.moderation_status) [
        | inr decided ↦
            let first = process_scan_decided s env type id db content found decided in
            let same : db' ≡ db = ground arith in
            settled-queue s' env' type id db' content (ap (load_content type id) same ∙ found)
              decided
        | inl pending ↦ elim (begin_scan-cases s env type id db) [
          | inr (x, other, ran, _, _, _) ↦
              let failed = process_scan_err s env type id db ran in absurd (ground arith)
          | inl (v, ran) ↦
              let first = process_scan_ok s env type id v db ran in
              let does = begin_scan-acts s env type id db v content found pending ran in
              let same : written env type id v db ≡ db' = ground arith in
              subst (λ (d : Db). (process_scan s' env' type id d).1.queue ≡ d.queue) same
                (written-again s' env env' type id v db found does)
        ]
      ]
    ]

-- A scan that reads a pending content and is to approve it, and then a moderator who rejects that
-- content before the scan writes: the content is rejected in between, and approved when the scan
-- has written.
pub overtaken_scan_publishes :
    (s : Scanner) (env env' env'' : Env) (auth : Auth) (item : ℕ) (category : Category)
    (note : Option Note) (c : Classification) (q : QueueItem) (db : Db)
    → begin_scan s env q.content_type q.content_id db ≡ (ok (Verdict.approved c), db)
    → auth.is_moderator ≡ true
    → lookup item db.queue ≡ some q
    → is_resolved q.status ≡ false
    → let mid = (decide env' auth item Choice.reject category note db).1 in
      (content : Content) × (load_content q.content_type q.content_id mid
        ≡ some (with_status ModerationStatus.rejected content))
      × (load_content q.content_type q.content_id
            (finish_scan env'' q.content_type q.content_id (Verdict.approved c) mid).1
          ≡ some (with_status ModerationStatus.approved content))
overtaken_scan_publishes s env env' env'' auth item category note c q db began role found live =
    let (content, there, _, _) =
      (begin_scan_approves_iff s env q.content_type q.content_id db c).0 began in
    let (_, flip, _, _) =
      decide_settles env' auth item Choice.reject category note db q role found live in
    let mid = (decide env' auth item Choice.reject category note db).1 in
    let rejected : load_content q.content_type q.content_id mid
        ≡ some (with_status ModerationStatus.rejected content) =
      flip ∙ ap (content_in (with_status ModerationStatus.rejected)) there in
    (
      content,
      rejected,
      ap (λ (p : Result Outcome × Db). load_content q.content_type q.content_id p.1)
            (finish_scan_ok env'' q.content_type q.content_id (Verdict.approved c) mid)
          ∙ load_content-written env'' q.content_type q.content_id (Verdict.approved c) mid
              rejected,
    )
