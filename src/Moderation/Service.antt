-- ===== src/Moderation/Service.antt =====
-- src/modules/moderation/service.js: submitForReview and processScan. A scan reads and
-- classifies before it opens its transaction, so it is two steps here; the payload's shape is
-- given by its type, and what is written to the audit log is left out.
use homeplate.Base.{
  ℕ, Bool, true, false, Option, none, some, List, [], ◌∷◌, String, leb, if◌then◌else◌,
}
use homeplate.Database.{
  Env, Tx, Result, ok, err, pure, ◌>>=◌, ◌>>◌, with_transaction, JobType, Payload, ModerationStatus,
  ContentType, Category, Actor, DecisionOutcome, Confidence, Rule, GateReason, Note, QueueReason,
}
use homeplate.Outbox.Enqueue.{enqueue, Enqueued}
use homeplate.Moderation.Prefilter.{
  Patterns, window_minutes, category_of, exceeds_rate_limit, check, live_content_gate,
}
use homeplate.Moderation.Repo.{
  Content, NewDecision, load_content, count_recent_by_author, set_moderation_status,
  insert_decision, insert_queue_item,
}

unfoldable pub submit_for_review : Env → ContentType → ℕ → Tx Enqueued
submit_for_review env type id =
    enqueue env JobType.moderation_scan (Payload.content_ref type id) none none

pub record Classification : Type 0 where
  pub category : Category
  pub confidence : Confidence
  pub model : String

-- The injected adapter with its mode, config.moderation.confidenceThreshold and the expressions.
pub record Scanner : Type 0 where
  pub classify : String → Result Classification
  pub is_live : Bool
  pub confidence_threshold : Confidence
  pub patterns : Patterns

pub record Escalation : Type 0 where
  pub category : Category
  pub confidence : Option Confidence
  pub decided_by : Actor
  pub model_id : Option String
  pub reason : QueueReason
  pub note : Option Note

-- What a scan is about to write.
pub data Verdict : Type 0 where
  skipped_missing skipped_decided : Verdict
  rejected : Rule → Verdict
  escalated : Escalation → Verdict
  approved : Classification → Verdict

-- What a scan returns, with the id of the decision.
pub data Outcome : Type 0 where
  skipped_missing skipped_decided : Outcome
  rejected escalated approved : (decision_id : ℕ) → Outcome

abbrev pub is_pending : ModerationStatus → Bool
is_pending ModerationStatus.pending = true
is_pending _ = false

abbrev pub is_benign : Category → Bool
is_benign Category.benign = true
is_benign _ = false

abbrev pub flooded : ℕ → Escalation
flooded recent = record {
  category = Category.spam;
  confidence = none;
  decided_by = Actor.pre_filter;
  model_id = none;
  reason = QueueReason.rate_limited;
  note = some (Note.rate_limit recent);
}

abbrev pub gated : List GateReason → Escalation
gated reasons = record {
  category = Category.unclassified;
  confidence = none;
  decided_by = Actor.pre_filter;
  model_id = none;
  reason = QueueReason.data_use_gate;
  note = some (Note.data_use reasons);
}

abbrev pub doubtful : Classification → Escalation
doubtful c = record {
  category = c.category;
  confidence = some c.confidence;
  decided_by = Actor.llm;
  model_id = some c.model;
  reason = if is_benign c.category then QueueReason.low_confidence else QueueReason.flagged;
  note = none;
}

module _ (s : Scanner) where
  -- Approved when benign with enough confidence, else for a human.
  abbrev pub route : Classification → Verdict
  route c =
      if is_benign c.category
      then if leb s.confidence_threshold c.confidence
        then Verdict.approved c
        else Verdict.escalated (doubtful c)
      else Verdict.escalated (doubtful c)

  abbrev pub classify_content : String → Tx Verdict
  classify_content text db = elim (s.classify text) [
    | ok c ↦ (ok (route c), db)
    | err e ↦ (err e, db)
  ]

  -- The gate and the classifier.
  abbrev pub judge_text : String → Tx Verdict
  judge_text text =
      let sent = classify_content text in
      if s.is_live
      then elim (live_content_gate s.patterns text) [
        | [] ↦ sent
        | r ∷ rs ↦ pure (Verdict.escalated (gated (r ∷ rs)))
      ]
      else sent

  -- The limit on its author, where there is one, and what comes behind it.
  abbrev pub judge_author : Env → ContentType → Content → Tx Verdict
  judge_author env type content = elim content.author_id [
    | none ↦ judge_text content.text
    | some author ↦ count_recent_by_author env type author window_minutes >>= λ recent.
        if exceeds_rate_limit recent
        then pure (Verdict.escalated (flooded recent))
        else judge_text content.text
  ]

  abbrev pub judge : Env → ContentType → Content → Tx Verdict
  judge env type content = elim (check s.patterns content.text) [
    | some rule ↦ pure (Verdict.rejected rule)
    | none ↦ judge_author env type content
  ]

  -- What a scan reads and decides, before its transaction.
  unfoldable pub begin_scan : Env → ContentType → ℕ → Tx Verdict
  begin_scan env type id db = elim (load_content type id db) [
    | none ↦ (ok Verdict.skipped_missing, db)
    | some content ↦
        if is_pending content.moderation_status
        then judge env type content db
        else (ok Verdict.skipped_decided, db)
  ]

abbrev pub rejection : Rule → Confidence → NewDecision
rejection rule one = record {
  category = category_of rule;
  confidence = some one;
  outcome = DecisionOutcome.rejected;
  decided_by = Actor.pre_filter;
  decided_by_user_id = none;
  model_id = none;
  note = some (Note.rule rule);
}

abbrev pub approval : Classification → NewDecision
approval c = record {
  category = c.category;
  confidence = some c.confidence;
  outcome = DecisionOutcome.approved;
  decided_by = Actor.llm;
  decided_by_user_id = none;
  model_id = some c.model;
  note = none;
}

abbrev pub escalation : Escalation → NewDecision
escalation e = record {
  category = e.category;
  confidence = e.confidence;
  outcome = DecisionOutcome.escalated;
  decided_by = e.decided_by;
  decided_by_user_id = none;
  model_id = e.model_id;
  note = e.note;
}

-- The double 1.
abbrev pub full_confidence : Confidence
full_confidence = 4607182418800017408

abbrev pub settle : Env → ContentType → ℕ → NewDecision → ModerationStatus → Tx ℕ
settle env type id d status =
    insert_decision env type id d >>= λ row. set_moderation_status type id status >> pure row

abbrev pub escalate : Env → ContentType → ℕ → Escalation → Tx ℕ
escalate env type id e = insert_decision env type id (escalation e) >>= λ row.
    insert_queue_item env type id e.reason (some row) >> pure row

-- The transaction that writes a verdict.
unfoldable pub finish_scan : Env → ContentType → ℕ → Verdict → Tx Outcome
finish_scan env type id Verdict.skipped_missing = pure Outcome.skipped_missing
finish_scan env type id Verdict.skipped_decided = pure Outcome.skipped_decided
finish_scan env type id (Verdict.rejected rule) =
    with_transaction (settle env type id (rejection rule full_confidence) ModerationStatus.rejected)
    >>= λ row. pure (Outcome.rejected row)
finish_scan env type id (Verdict.escalated e) =
    with_transaction (escalate env type id e) >>= λ row. pure (Outcome.escalated row)
finish_scan env type id (Verdict.approved c) =
    with_transaction (settle env type id (approval c) ModerationStatus.approved) >>= λ row.
    pure (Outcome.approved row)

-- A scan that nothing comes between.
unfoldable pub process_scan : Scanner → Env → ContentType → ℕ → Tx Outcome
process_scan s env type id = begin_scan s env type id >>= finish_scan env type id
