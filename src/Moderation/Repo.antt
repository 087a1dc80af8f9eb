-- ===== src/Moderation/Repo.antt =====
-- src/modules/moderation/repo.js: the contents that are scanned, the flip of their status, the
-- decisions and the queue. That a content type is one of the four is given by its type.
use Prim.Native.String.{◌++◌ as str_append}
use homeplate.Base.{
  ℕ, suc, ◌+◌, ◌*◌, Bool, true, false, ◌&&◌, not, Option, none, some, List, [], ◌∷◌, String, ltb,
  ◌==◌, is_some, if◌then◌else◌,
}
use homeplate.Table.{Table, lookup, modify, update_where, count}
use homeplate.Database.{
  Db, Env, Tx, ok, err, Listing, Review, Message, ModerationStatus, ContentType, Category, Actor,
  DecisionOutcome, Confidence, Note, Decision, QueueReason, QueueStatus, QueueItem, Failure,
}

pub record Content : Type 0 where
  pub author_id : Option ℕ
  pub moderation_status : ModerationStatus
  pub text : String

-- array_to_string(xs, ', ')
abbrev pub array_to_string : List String → String
array_to_string [] = ""
array_to_string (x ∷ []) = x
array_to_string (x ∷ y ∷ xs) = str_append x (str_append ", " (array_to_string (y ∷ xs)))

-- A line more, unless its column is NULL: concat_ws(E'\n', …).
abbrev pub line_if : String → Option String → String
line_if text none = text
line_if text (some line) = str_append text (str_append "\n" line)

abbrev pub listing_text : Listing → String
listing_text l =
    line_if
      (line_if
        (line_if (line_if l.title (some l.description)) (some (array_to_string l.ingredients)))
        (some (array_to_string l.allergens)))
      l.cuisine

abbrev pub listing_content : Listing → Content
listing_content l = record {
  author_id = some l.host_id;
  moderation_status = l.moderation_status;
  text = listing_text l;
}

-- coalesce(body, '')
abbrev pub body_text : Option String → String
body_text none = ""
body_text (some body) = body

abbrev pub review_content : Review → Content
review_content r = record {
  author_id = r.author_id;
  moderation_status = r.moderation_status;
  text = body_text r.body;
}

abbrev pub message_content : Message → Content
message_content m = record {
  author_id = m.sender_id;
  moderation_status = m.moderation_status;
  text = m.body;
}

abbrev pub content_in {ℓ} : {A : Type ℓ} → (A → Content) → Option A → Option Content
content_in f none = none
content_in f (some a) = some (f a)

abbrev pub load_content : ContentType → ℕ → Db → Option Content
load_content ContentType.listing id db = content_in listing_content (lookup id db.listings)
load_content ContentType.review id db = content_in review_content (lookup id db.reviews)
load_content ContentType.message id db = content_in message_content (lookup id db.messages)
load_content ContentType.safety_alert id db = none

abbrev pub is_by : ℕ → Option ℕ → Bool
is_by author none = false
is_by author (some a) = a == author

-- created_at > now() - interval
abbrev pub is_recent : ℕ → ℕ → ℕ → Bool
is_recent now minutes created_at = ltb now (created_at + minutes * 60000)

-- For a safety alert it throws.
unfoldable pub count_recent_by_author : Env → ContentType → ℕ → ℕ → Tx ℕ
count_recent_by_author env ContentType.listing author minutes db = (
  ok (
      count (λ (l : Listing). l.host_id == author && is_recent env.now minutes l.created_at)
        db.listings),
  db,
)
count_recent_by_author env ContentType.review author minutes db = (
  ok (
      count (λ (r : Review). is_by author r.author_id && is_recent env.now minutes r.created_at)
        db.reviews),
  db,
)
count_recent_by_author env ContentType.message author minutes db = (
  ok (
      count (λ (m : Message). is_by author m.sender_id && is_recent env.now minutes m.created_at)
        db.messages),
  db,
)
count_recent_by_author env ContentType.safety_alert author minutes db = (err Failure.type_error, db)

abbrev pub with_listing_status : ModerationStatus → Listing → Listing
with_listing_status s l = record l { moderation_status = s }

abbrev pub with_review_status : ModerationStatus → Review → Review
with_review_status s r = record r { moderation_status = s }

abbrev pub with_message_status : ModerationStatus → Message → Message
with_message_status s m = record m { moderation_status = s }

-- The flip, whatever the status was; whether there was a row. An alert has no status.
unfoldable pub set_moderation_status : ContentType → ℕ → ModerationStatus → Tx Bool
set_moderation_status ContentType.listing id s db = (
  ok (is_some (lookup id db.listings)),
  record db { listings = modify id (with_listing_status s) db.listings },
)
set_moderation_status ContentType.review id s db = (
  ok (is_some (lookup id db.reviews)),
  record db { reviews = modify id (with_review_status s) db.reviews },
)
set_moderation_status ContentType.message id s db = (
  ok (is_some (lookup id db.messages)),
  record db { messages = modify id (with_message_status s) db.messages },
)
set_moderation_status ContentType.safety_alert id s db =
    (ok (is_some (lookup id db.safety_alerts)), db)

-- The columns that the caller gives.
pub record NewDecision : Type 0 where
  pub category : Category
  pub confidence : Option Confidence
  pub outcome : DecisionOutcome
  pub decided_by : Actor
  pub decided_by_user_id : Option ℕ
  pub model_id : Option String
  pub note : Option Note

abbrev pub decision_row : Env → ContentType → ℕ → NewDecision → Decision
decision_row env type id d = record {
  content_type = type;
  content_id = id;
  category = d.category;
  confidence = d.confidence;
  outcome = d.outcome;
  decided_by = d.decided_by;
  decided_by_user_id = d.decided_by_user_id;
  model_id = d.model_id;
  note = d.note;
  created_at = env.now;
}

unfoldable pub insert_decision : Env → ContentType → ℕ → NewDecision → Tx ℕ
insert_decision env type id d db = (
  ok db.next_id,
  record db {
    decisions = (db.next_id, decision_row env type id d) ∷ db.decisions;
    next_id = suc db.next_id;
  },
)

-- A number for each content type, to compare them.
abbrev pub type_tag : ContentType → ℕ
type_tag ContentType.listing = 0
type_tag ContentType.review = 1
type_tag ContentType.message = 2
type_tag ContentType.safety_alert = 3

abbrev pub is_resolved : QueueStatus → Bool
is_resolved QueueStatus.resolved = true
is_resolved _ = false

-- An unresolved item of a content: the rows of moderation_queue_open_content_key.
abbrev pub is_open_for : ContentType → ℕ → QueueItem → Bool
is_open_for type id q =
    type_tag q.content_type == type_tag type && (q.content_id == id && not (is_resolved q.status))

abbrev pub find_open : ContentType → ℕ → Table QueueItem → Option (ℕ × QueueItem)
find_open type id [] = none
find_open type id ((k, q) ∷ t) =
    let rest = find_open type id t in if is_open_for type id q then some (k, q) else rest

abbrev pub new_queue_item : Env → ContentType → ℕ → QueueReason → Option ℕ → QueueItem
new_queue_item env type id reason decision = record {
  content_type = type;
  content_id = id;
  reason = reason;
  status = QueueStatus.opened;
  assigned_to = none;
  decision_id = decision;
  created_at = env.now;
  resolved_at = none;
}

-- INSERT … ON CONFLICT DO NOTHING, or the open item: its id, and whether it is new.
unfoldable pub insert_queue_item : Env → ContentType → ℕ → QueueReason → Option ℕ → Tx (ℕ × Bool)
insert_queue_item env type id reason decision db = elim (find_open type id db.queue) [
  | none ↦ (
    ok (db.next_id, true),
    record db {
      queue = (db.next_id, new_queue_item env type id reason decision) ∷ db.queue;
      next_id = suc db.next_id;
    },
  )
  | some (k, q) ↦ (ok (k, false), db)
]

abbrev pub lock_queue_item : ℕ → Db → Option QueueItem
lock_queue_item id db = lookup id db.queue

abbrev pub resolve_at : Env → ℕ → ℕ → QueueItem → QueueItem
resolve_at env decision moderator q = record q {
  status = QueueStatus.resolved;
  resolved_at = some env.now;
  decision_id = some decision;
  assigned_to = some moderator;
}

unfoldable pub resolve_queue_item : Env → ℕ → ℕ → ℕ → Tx (Option QueueItem)
resolve_queue_item env id decision moderator db =
    let (row, queue) =
      update_where id (λ (q : QueueItem). not (is_resolved q.status))
        (resolve_at env decision moderator) db.queue in
    (ok row, record db { queue = queue })
