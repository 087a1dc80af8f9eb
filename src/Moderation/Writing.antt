-- ===== src/Moderation/Writing.antt =====
-- What the statements of moderation leave behind: each as one equation on the database.
use homeplate.Base.{
  ℕ, suc, ◌≡◌, refl, Bool, true, false, Option, none, some, ◌∷◌, is_some, arith, inl, inr,
  Option-cases, ==_refl,
}
use homeplate.Table.{lookup, modify}
use homeplate.Table.Laws.{lookup-modify}
use homeplate.Database.{Db, Env, ok, ModerationStatus, ContentType, QueueReason}
use homeplate.Moderation.Repo.{
  Content, NewDecision, decision_row, load_content, set_moderation_status, insert_decision,
  insert_queue_item, find_open, new_queue_item, with_listing_status, with_review_status,
  with_message_status, content_in,
}
use homeplate.Moderation.Service.{Escalation, escalation, settle, escalate}

-- The database with the status of one content set.
abbrev pub flipped : ContentType → ℕ → ModerationStatus → Db → Db
flipped ContentType.listing id s db = record db {
  listings = modify id (with_listing_status s) db.listings;
}
flipped ContentType.review id s db = record db {
  reviews = modify id (with_review_status s) db.reviews;
}
flipped ContentType.message id s db = record db {
  messages = modify id (with_message_status s) db.messages;
}
flipped ContentType.safety_alert id s db = db

-- Whether the content has a row.
abbrev pub has_row : ContentType → ℕ → Db → Bool
has_row ContentType.listing id db = is_some (lookup id db.listings)
has_row ContentType.review id db = is_some (lookup id db.reviews)
has_row ContentType.message id db = is_some (lookup id db.messages)
has_row ContentType.safety_alert id db = is_some (lookup id db.safety_alerts)

-- The database with a decision more.
abbrev pub recorded : Env → ContentType → ℕ → NewDecision → Db → Db
recorded env type id d db = record db {
  decisions = (db.next_id, decision_row env type id d) ∷ db.decisions;
  next_id = suc db.next_id;
}

pub set_moderation_status_ok :
    (type : ContentType) (id : ℕ) (s : ModerationStatus) (db : Db)
    → set_moderation_status type id s db ≡ (ok (has_row type id db), flipped type id s db)
unfolding set_moderation_status
set_moderation_status_ok ContentType.listing id s db = refl
set_moderation_status_ok ContentType.review id s db = refl
set_moderation_status_ok ContentType.message id s db = refl
set_moderation_status_ok ContentType.safety_alert id s db = refl

pub insert_decision_ok :
    (env : Env) (type : ContentType) (id : ℕ) (d : NewDecision) (db : Db)
    → insert_decision env type id d db ≡ (ok db.next_id, recorded env type id d db)
unfolding insert_decision
insert_decision_ok env type id d db = refl

pub settle_ok :
    (env : Env) (type : ContentType) (id : ℕ) (d : NewDecision) (s : ModerationStatus) (db : Db)
    → settle env type id d s db ≡ (ok db.next_id, flipped type id s (recorded env type id d db))
settle_ok env type id d s db = ground (
  arith,
  insert_decision_ok env type id d db,
  set_moderation_status_ok type id s (recorded env type id d db),
)

abbrev pub with_status : ModerationStatus → Content → Content
with_status s c = record c { moderation_status = s }

pub load_content-flipped :
    (type : ContentType) (id : ℕ) (s : ModerationStatus) (db : Db)
    → load_content type id (flipped type id s db)
      ≡ content_in (with_status s) (load_content type id db)
load_content-flipped ContentType.listing id s db =
    ground (arith, lookup-modify id id (with_listing_status s) db.listings, ==_refl id)
load_content-flipped ContentType.review id s db =
    ground (arith, lookup-modify id id (with_review_status s) db.reviews, ==_refl id)
load_content-flipped ContentType.message id s db =
    ground (arith, lookup-modify id id (with_message_status s) db.messages, ==_refl id)
load_content-flipped ContentType.safety_alert id s db = refl

-- The item that an escalation is filed under, and whether it is new.
abbrev pub filed_as : ContentType → ℕ → Db → ℕ
filed_as type id db = elim (find_open type id db.queue) [ none ↦ db.next_id | some (k, q) ↦ k ]

-- The database with an item for the content, unless one is open.
abbrev pub filed : Env → ContentType → ℕ → QueueReason → Option ℕ → Db → Db
filed env type id reason decision db = elim (find_open type id db.queue) [
  | none ↦ record db {
    queue = (db.next_id, new_queue_item env type id reason decision) ∷ db.queue;
    next_id = suc db.next_id;
  }
  | some (k, q) ↦ db
]

pub insert_queue_item_ok :
    (env : Env) (type : ContentType) (id : ℕ) (reason : QueueReason) (decision : Option ℕ) (db : Db)
    → (created : Bool) × (insert_queue_item env type id reason decision db
        ≡ (ok (filed_as type id db, created), filed env type id reason decision db))
unfolding insert_queue_item
insert_queue_item_ok env type id reason decision db =
    elim (Option-cases (find_open type id db.queue)) [
      | inl free ↦ (true, ground (arith, free))
      | inr (row, open_) ↦ (false, ground (arith, open_))
    ]

pub escalate_ok :
    (env : Env) (type : ContentType) (id : ℕ) (e : Escalation) (db : Db)
    → escalate env type id e db ≡ (
      ok db.next_id,
      filed env type id e.reason (some db.next_id) (recorded env type id (escalation e) db),
    )
escalate_ok env type id e db =
    let (created, ran) =
      insert_queue_item_ok env type id e.reason (some db.next_id)
        (recorded env type id (escalation e) db) in
    ground (arith, insert_decision_ok env type id (escalation e) db, ran)

-- A flip leaves the queue and the decisions; a decision leaves the contents.
pub queue-flipped :
    (type : ContentType) (id : ℕ) (s : ModerationStatus) (db : Db)
    → (flipped type id s db).queue ≡ db.queue
queue-flipped ContentType.listing id s db = refl
queue-flipped ContentType.review id s db = refl
queue-flipped ContentType.message id s db = refl
queue-flipped ContentType.safety_alert id s db = refl

pub has_row-recorded :
    (env : Env) (type : ContentType) (id : ℕ) (d : NewDecision) (db : Db)
    → has_row type id (recorded env type id d db) ≡ has_row type id db
has_row-recorded env ContentType.listing id d db = refl
has_row-recorded env ContentType.review id d db = refl
has_row-recorded env ContentType.message id d db = refl
has_row-recorded env ContentType.safety_alert id d db = refl

pub decisions-flipped :
    (type : ContentType) (id : ℕ) (s : ModerationStatus) (db : Db)
    → (flipped type id s db).decisions ≡ db.decisions
decisions-flipped ContentType.listing id s db = refl
decisions-flipped ContentType.review id s db = refl
decisions-flipped ContentType.message id s db = refl
decisions-flipped ContentType.safety_alert id s db = refl
