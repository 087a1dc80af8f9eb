-- ===== src/Moderation/Scanning.antt =====
-- processScan: its reading part writes nothing, its writing part never fails, and what a scan
-- that nothing interrupts leaves behind.
use mathlib.Core.Path.{subst}
use homeplate.Base.{
  ℕ, ◌≡◌, refl, ap, ◌∙◌, Bool, true, false, some, arith, inl, inr, ◌⊎◌, Option-cases, Bool-cases,
  ◌∷◌, String,
}
use homeplate.Database.{
  Db, Env, Tx, Result-cases, ok, err, pure, resume, ContentType, ModerationStatus, Failure,
  with_transaction_ok,
}
use homeplate.Moderation.Prefilter.{check, live_content_gate, window_minutes, exceeds_rate_limit}
use homeplate.Moderation.Repo.{Content, load_content, count_recent_by_author}
use homeplate.Moderation.Service.{
  Scanner, Classification, Verdict, Outcome, settle, escalate, rejection, approval, escalation,
  full_confidence, route, classify_content, judge_text, judge, gated, flooded, begin_scan,
  finish_scan,
}
use homeplate.Moderation.Writing.{flipped, recorded, filed, settle_ok, escalate_ok}
use homeplate.Moderation.Filtering.{List-cases}
use homeplate.Moderation.Clearing.{Status-cases}

-- The database with a verdict written.
abbrev pub written : Env → ContentType → ℕ → Verdict → Db → Db
written env type id Verdict.skipped_missing db = db
written env type id Verdict.skipped_decided db = db
written env type id (Verdict.rejected rule) db =
    flipped type id ModerationStatus.rejected
      (recorded env type id (rejection rule full_confidence) db)
written env type id (Verdict.escalated e) db =
    filed env type id e.reason (some db.next_id) (recorded env type id (escalation e) db)
written env type id (Verdict.approved c) db =
    flipped type id ModerationStatus.approved (recorded env type id (approval c) db)

abbrev pub outcome_with : ℕ → Verdict → Outcome
outcome_with row Verdict.skipped_missing = Outcome.skipped_missing
outcome_with row Verdict.skipped_decided = Outcome.skipped_decided
outcome_with row (Verdict.rejected rule) = Outcome.rejected row
outcome_with row (Verdict.escalated e) = Outcome.escalated row
outcome_with row (Verdict.approved c) = Outcome.approved row

pub finish_scan_ok :
    (env : Env) (type : ContentType) (id : ℕ) (v : Verdict) (db : Db)
    → finish_scan env type id v db ≡ (ok (outcome_with db.next_id v), written env type id v db)
unfolding finish_scan
finish_scan_ok env type id Verdict.skipped_missing db = refl
finish_scan_ok env type id Verdict.skipped_decided db = refl
finish_scan_ok env type id (Verdict.rejected rule) db =
    let m = settle env type id (rejection rule full_confidence) ModerationStatus.rejected in
    ap (resume (λ row. pure (Outcome.rejected row))) (
      with_transaction_ok m
        (settle_ok env type id (rejection rule full_confidence) ModerationStatus.rejected db))
finish_scan_ok env type id (Verdict.escalated e) db =
    let m = escalate env type id e in
    ap (resume (λ row. pure (Outcome.escalated row)))
      (with_transaction_ok m (escalate_ok env type id e db))
finish_scan_ok env type id (Verdict.approved c) db =
    let m = settle env type id (approval c) ModerationStatus.approved in
    ap (resume (λ row. pure (Outcome.approved row)))
      (with_transaction_ok m (settle_ok env type id (approval c) ModerationStatus.approved db))

-- A verdict that is written: no scan of a pending content is skipped.
abbrev pub acts : Verdict → Bool
acts Verdict.skipped_missing = false
acts Verdict.skipped_decided = false
acts _ = true

-- A part of the pipeline gives a verdict to write or the error of the classifier, and writes nothing.
abbrev Judges : Tx Verdict → Scanner → String → Db → Type 0
Judges m s text db =
    ((v : Verdict) × (m db ≡ (ok v, db)) × (acts v ≡ true))
    ⊎ ((x : Failure) × (m db ≡ (err x, db)) × (s.classify text ≡ err x))

Judges-along :
    (m k : Tx Verdict) (s : Scanner) (text : String) (db : Db)
    → m db ≡ k db
    → Judges k s text db
    → Judges m s text db
Judges-along m k s text db e (inl (v, h, does)) = inl (v, e ∙ h, does)
Judges-along m k s text db e (inr (x, h, failed)) = inr (x, e ∙ h, failed)

route-acts : (s : Scanner) (c : Classification) → acts (route s c) ≡ true
route-acts s c = ground arith

classify_content-Judges :
    (s : Scanner) (text : String) (db : Db) → Judges (classify_content s text) s text db
classify_content-Judges s text db = elim (Result-cases (s.classify text, db)) [
  | inl (b, d, e) ↦
      let said : s.classify text ≡ ok b = ground arith in
      inl (route s b, ground arith, route-acts s b)
  | inr (x, d, e) ↦
      let failed : s.classify text ≡ err x = ground arith in inr (x, ground arith, failed)
]

judge_text-Judges : (s : Scanner) (text : String) (db : Db) → Judges (judge_text s text) s text db
judge_text-Judges s text db = elim (Bool-cases s.is_live) [
  | inr mock ↦
      Judges-along (judge_text s text) (classify_content s text) s text db (ground arith)
        (classify_content-Judges s text db)
  | inl live ↦ elim (List-cases (live_content_gate s.patterns text)) [
    | inl open_ ↦
        Judges-along (judge_text s text) (classify_content s text) s text db (ground arith)
          (classify_content-Judges s text db)
    | inr (r, rs, shut) ↦ inl (Verdict.escalated (gated (r ∷ rs)), ground arith, refl)
  ]
]

counts_when_loaded :
    (env : Env) (type : ContentType) (id author : ℕ) (db : Db) {content : Content}
    → load_content type id db ≡ some content
    → (n : ℕ) × (count_recent_by_author env type author window_minutes db ≡ (ok n, db))
unfolding count_recent_by_author
counts_when_loaded env ContentType.listing id author db e = (_, refl)
counts_when_loaded env ContentType.review id author db e = (_, refl)
counts_when_loaded env ContentType.message id author db e = (_, refl)
counts_when_loaded env ContentType.safety_alert id author db e = absurd (ground arith)

judge-Judges :
    (s : Scanner) (env : Env) (type : ContentType) (id : ℕ) (content : Content) (db : Db)
    → load_content type id db ≡ some content
    → Judges (judge s env type content) s content.text db
judge-Judges s env type id content db found = elim (Option-cases (check s.patterns content.text)) [
  | inr (r, hit) ↦ inl (Verdict.rejected r, ground arith, refl)
  | inl passed ↦ elim (Option-cases content.author_id) [
    | inl nobody ↦
        Judges-along (judge s env type content) (judge_text s content.text) s content.text db
          (ground arith) (judge_text-Judges s content.text db)
    | inr (a, is) ↦
        let (n, counted) = counts_when_loaded env type id a db found in
        elim (Bool-cases (exceeds_rate_limit n)) [
          | inl flood ↦ inl (Verdict.escalated (flooded n), ground arith, refl)
          | inr few ↦
              Judges-along (judge s env type content) (judge_text s content.text) s content.text db
                (ground arith) (judge_text-Judges s content.text db)
        ]
  ]
]

-- The reading part of a scan gives a verdict, or passes on the error of the classifier on the
-- text of a pending content.
pub begin_scan-cases :
    (s : Scanner) (env : Env) (type : ContentType) (id : ℕ) (db : Db)
    → ((v : Verdict) × (begin_scan s env type id db ≡ (ok v, db)))
      ⊎ ((x : Failure) × (content : Content) × (begin_scan s env type id db ≡ (err x, db))
          × (load_content type id db ≡ some content)
          × (content.moderation_status ≡ ModerationStatus.pending)
          × (s.classify content.text ≡ err x))
unfolding begin_scan
begin_scan-cases s env type id db = elim (Option-cases (load_content type id db)) [
  | inl gone ↦ inl (Verdict.skipped_missing, ground arith)
  | inr (content, found) ↦ elim (Status-cases content.moderation_status) [
    | inr decided ↦ inl (Verdict.skipped_decided, ground arith)
    | inl pending ↦ elim (judge-Judges s env type id content db found) [
      | inl (v, e, _) ↦ inl (v, ground arith)
      | inr (x, e, failed) ↦ inr (x, content, ground arith, found, pending, failed)
    ]
  ]
]

-- The verdict on a pending content is one that is written.
pub begin_scan-acts :
    (s : Scanner) (env : Env) (type : ContentType) (id : ℕ) (db : Db) (v : Verdict)
    (content : Content)
    → load_content type id db ≡ some content
    → content.moderation_status ≡ ModerationStatus.pending
    → begin_scan s env type id db ≡ (ok v, db)
    → acts v ≡ true
unfolding begin_scan
begin_scan-acts s env type id db v content found pending e =
    elim (judge-Judges s env type id content db found) [
      | inl (w, ran, does) ↦ let same : w ≡ v = ground arith in subst (λ x. acts x ≡ true) same does
      | inr (x, thrown, failed) ↦ absurd (ground arith)
    ]
