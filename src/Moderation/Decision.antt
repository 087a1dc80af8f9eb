-- ===== src/Moderation/Decision.antt =====
-- src/modules/moderation/service.js: decide, a moderator's decision on an item of the queue.
use homeplate.Base.{ℕ, Bool, not, Option, none, some}
use homeplate.Database.{
  Auth, Env, Tx, pure, throw_if, query, some_or_throw, ◌>>=◌, ◌>>◌, with_transaction, Failure,
  ModerationStatus, Category, Actor, DecisionOutcome, Note, QueueItem,
}
use homeplate.Moderation.Repo.{
  NewDecision, set_moderation_status, insert_decision, lock_queue_item, resolve_queue_item,
  is_resolved,
}

pub data Choice : Type 0 where
  approve reject : Choice

abbrev pub status_of : Choice → ModerationStatus
status_of Choice.approve = ModerationStatus.approved
status_of Choice.reject = ModerationStatus.rejected

abbrev pub outcome_of : Choice → DecisionOutcome
outcome_of Choice.approve = DecisionOutcome.approved
outcome_of Choice.reject = DecisionOutcome.rejected

pub record Decided : Type 0 where
  pub item : Option QueueItem
  pub decision_id : ℕ
  pub content_exists : Bool

abbrev pub human_decision : Auth → Choice → Category → Option Note → NewDecision
human_decision auth choice category note = record {
  category = category;
  confidence = none;
  outcome = outcome_of choice;
  decided_by = Actor.human;
  decided_by_user_id = some auth.user_id;
  model_id = none;
  note = note;
}

abbrev pub decide_locked : Env → Auth → ℕ → Choice → Category → Option Note → QueueItem → Tx Decided
decide_locked env auth item choice category note q =
    throw_if (is_resolved q.status) Failure.queue_item_resolved
    >> (insert_decision env q.content_type q.content_id (human_decision auth choice category note)
        >>= λ row.
            set_moderation_status q.content_type q.content_id (status_of choice) >>= λ flipped.
            resolve_queue_item env item row auth.user_id >>= λ resolved.
            pure (record { item = resolved; decision_id = row; content_exists = flipped }))

unfoldable pub decide : Env → Auth → ℕ → Choice → Category → Option Note → Tx Decided
decide env auth item choice category note =
    throw_if (not auth.is_moderator) Failure.not_moderator
    >> with_transaction (
        query (lock_queue_item item) >>= λ found.
        some_or_throw found Failure.queue_item_not_found >>= λ q.
        decide_locked env auth item choice category note q)
