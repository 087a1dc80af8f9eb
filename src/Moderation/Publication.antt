-- ===== src/Moderation/Publication.antt =====
-- processScan: which contents it publishes, and what it leaves when it fails or runs again.
use mathlib.Core.Path.{subst}
use homeplate.Base.{
  ℕ, suc, ◌≡◌, ◌↔◌, refl, ap, ◌∙◌, Option, some, arith, inl, inr, Option-cases, ◌∷◌,
}
use homeplate.Table.{Table}
use homeplate.Database.{
  Db, Env, ok, err, ContentType, ModerationStatus, QueueReason, QueueItem, Failure, >>=_ok, >>=_err,
}
use homeplate.Moderation.Repo.{Content, NewDecision, load_content, find_open, new_queue_item}
use homeplate.Moderation.Service.{
  Scanner, Classification, Verdict, begin_scan, finish_scan, process_scan, rejection,
  full_confidence, escalation, approval,
}
use homeplate.Moderation.Writing.{recorded, filed, load_content-flipped, with_status}
use homeplate.Moderation.Clearing.{IsCleared, begin_scan_approves_iff}
use homeplate.Moderation.Scanning.{written, outcome_with, finish_scan_ok, begin_scan-cases}

pub load_content-recorded :
    (env : Env) (type kind : ContentType) (id k : ℕ) (d : NewDecision) (db : Db)
    → load_content type id (recorded env kind k d db) ≡ load_content type id db
load_content-recorded env ContentType.listing kind id k d db = refl
load_content-recorded env ContentType.review kind id k d db = refl
load_content-recorded env ContentType.message kind id k d db = refl
load_content-recorded env ContentType.safety_alert kind id k d db = refl

pub load_content-queued :
    (type : ContentType) (id : ℕ) (db : Db) (queue : Table QueueItem) (next : ℕ)
    → load_content type id (record db { queue = queue; next_id = next }) ≡ load_content type id db
load_content-queued ContentType.listing id db queue next = refl
load_content-queued ContentType.review id db queue next = refl
load_content-queued ContentType.message id db queue next = refl
load_content-queued ContentType.safety_alert id db queue next = refl

pub load_content-filed :
    (env : Env) (type kind : ContentType) (id k : ℕ) (reason : QueueReason) (d : Option ℕ) (db : Db)
    → load_content type id (filed env kind k reason d db) ≡ load_content type id db
load_content-filed env type kind id k reason d db =
    elim (Option-cases (find_open kind k db.queue)) [
      | inl free ↦ ground (
        arith,
        load_content-queued type id db ((db.next_id, new_queue_item env kind k reason d) ∷ db.queue)
            (suc db.next_id),
      )
      | inr (row, open_) ↦ ground arith
    ]

-- The status that a verdict gives to a pending content.
abbrev pub status_by : Verdict → ModerationStatus → ModerationStatus
status_by Verdict.skipped_missing m = m
status_by Verdict.skipped_decided m = m
status_by (Verdict.rejected rule) m = ModerationStatus.rejected
status_by (Verdict.escalated e) m = m
status_by (Verdict.approved c) m = ModerationStatus.approved

pub load_content-written :
    (env : Env) (type : ContentType) (id : ℕ) (v : Verdict) (db : Db) {content : Content}
    → load_content type id db ≡ some content
    → load_content type id (written env type id v db)
      ≡ some (with_status (status_by v content.moderation_status) content)
load_content-written env type id Verdict.skipped_missing db e = e
load_content-written env type id Verdict.skipped_decided db e = e
load_content-written env type id (Verdict.rejected rule) db e =
    let d = rejection rule full_confidence in
    ground (
      arith,
      load_content-flipped type id ModerationStatus.rejected (recorded env type id d db),
      load_content-recorded env type type id id d db,
    )
load_content-written env type id (Verdict.escalated x) db e =
    load_content-filed env type type id id x.reason (some db.next_id)
      (recorded env type id (escalation x) db)
    ∙ load_content-recorded env type type id id (escalation x) db
    ∙ e
load_content-written env type id (Verdict.approved c) db e = ground (
  arith,
  load_content-flipped type id ModerationStatus.approved (recorded env type id (approval c) db),
  load_content-recorded env type type id id (approval c) db,
)

pub process_scan_ok :
    (s : Scanner) (env : Env) (type : ContentType) (id : ℕ) (v : Verdict) (db : Db)
    → begin_scan s env type id db ≡ (ok v, db)
    → process_scan s env type id db ≡ (ok (outcome_with db.next_id v), written env type id v db)
unfolding process_scan
process_scan_ok s env type id v db e =
    >>=_ok (begin_scan s env type id) (finish_scan env type id) e ∙ finish_scan_ok env type id v db

pub process_scan_err :
    (s : Scanner) (env : Env) (type : ContentType) (id : ℕ) (db : Db) {x : Failure}
    → begin_scan s env type id db ≡ (err x, db)
    → process_scan s env type id db ≡ (err x, db)
unfolding process_scan
process_scan_err s env type id db e = >>=_err (begin_scan s env type id) (finish_scan env type id) e

-- A scan that fails has written nothing, and fails with what the classifier threw on the text of
-- the pending content that it scanned.
pub process_scan_failed :
    (s : Scanner) (env : Env) (type : ContentType) (id : ℕ) (db db' : Db) (x : Failure)
    → process_scan s env type id db ≡ (err x, db')
    → (db' ≡ db)
      × ((content : Content) × (load_content type id db ≡ some content)
          × (content.moderation_status ≡ ModerationStatus.pending)
          × (s.classify content.text ≡ err x))
process_scan_failed s env type id db db' x e = elim (begin_scan-cases s env type id db) [
  | inl (v, ran) ↦ absurd (ground (arith, process_scan_ok s env type id v db ran))
  | inr (y, content, ran, found, pending, failed) ↦
      let thrown = process_scan_err s env type id db ran in
      (ground arith, (content, found, pending, ground arith))
]

status_by-approved :
    (v : Verdict)
    → status_by v ModerationStatus.pending ≡ ModerationStatus.approved
    → (c : Classification) × (v ≡ Verdict.approved c)
status_by-approved Verdict.skipped_missing e = absurd (ground arith)
status_by-approved Verdict.skipped_decided e = absurd (ground arith)
status_by-approved (Verdict.rejected rule) e = absurd (ground arith)
status_by-approved (Verdict.escalated x) e = absurd (ground arith)
status_by-approved (Verdict.approved c) e = (c, refl)

-- A scan turns a pending content into an approved one exactly when no rule of the blocklist fires
-- on its text, its author is within the budget, the text may go to the provider, and the
-- classifier finds it benign with at least the confidence that is asked for.
pub process_scan_publishes_iff :
    (s : Scanner) (env : Env) (type : ContentType) (id : ℕ) (db : Db) (content : Content)
    → load_content type id db ≡ some content
    → content.moderation_status ≡ ModerationStatus.pending
    → (load_content type id (process_scan s env type id db).1
        ≡ some (with_status ModerationStatus.approved content))
      ↔ ((c : Classification) × IsCleared s env type content db c)
process_scan_publishes_iff s env type id db content found pending = (
  (λ e. elim (begin_scan-cases s env type id db) [
    | inl (v, ran) ↦
        let after = process_scan_ok s env type id v db ran in
        let moved = load_content-written env type id v db found in
        let (c, is) = status_by-approved v (ground arith) in
        let (other, there, _, cleared) =
          (begin_scan_approves_iff s env type id db c).0 (ran ∙ ap (λ x. (ok x, db)) is) in
        let same : other ≡ content = ground arith in
        (c, subst (λ x. IsCleared s env type x db c) same cleared)
    | inr (y, other, ran, _, _, _) ↦
        let stuck = process_scan_err s env type id db ran in absurd (ground arith)
  ]),
  (λ (c, cleared).
      let ran = (begin_scan_approves_iff s env type id db c).1 (content, found, pending, cleared) in
      ground (
        arith,
        process_scan_ok s env type id (Verdict.approved c) db ran,
        load_content-written env type id (Verdict.approved c) db found,
      )),
)
