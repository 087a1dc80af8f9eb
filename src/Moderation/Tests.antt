-- ===== src/Moderation/Tests.antt =====
-- Moderation at concrete inputs.
use homeplate.Base.{◌≡◌, ◌↔◌, refl, true, false, none, some, [], ◌∷◌}
use homeplate.Table.{lookup}
use homeplate.Database.{
  Auth, Db, Env, empty_db, ok, err, Listing, ModerationStatus, ContentType, Category, QueueItem,
  QueueReason, QueueStatus, Failure, Result, Decision, Note,
}
use homeplate.Bookings.Tests.{at, supper}
use homeplate.Moderation.Prefilter.{Patterns, check, live_content_gate}
use homeplate.Moderation.Repo.{
  Content, load_content, listing_content, count_recent_by_author, content_in, decision_row,
  resolve_at,
}
use homeplate.Moderation.Service.{
  Scanner, Classification, Verdict, Outcome, begin_scan, finish_scan, process_scan,
}
use homeplate.Moderation.Decision.{Choice, decide}
use homeplate.Moderation.Writing.{with_status}
use homeplate.Moderation.Clearing.{IsCleared}
use homeplate.Moderation.Publication.{process_scan_publishes_iff}
use homeplate.Moderation.Overtaking.{process_scan_again, overtaken_scan_publishes}
use homeplate.Moderation.Deciding.{settled_item, ruling, decide_settles}

abbrev pub draft : Listing
draft = record supper { moderation_status = ModerationStatus.pending }

abbrev pub waiting : QueueItem
waiting = record {
  content_type = ContentType.listing;
  content_id = 10;
  reason = QueueReason.flagged;
  status = QueueStatus.opened;
  assigned_to = none;
  decision_id = none;
  created_at = 6;
  resolved_at = none;
}

-- A pending listing with an item in the queue.
abbrev pub drafted : Db
drafted = record empty_db { listings = (10, draft) ∷ []; queue = (12, waiting) ∷ []; next_id = 20 }

abbrev pub moderator : Auth
moderator = record { user_id = 9; is_moderator = true }

abbrev quiet : Patterns
quiet = record {
  matches = λ rule text. false;
  links = λ text. 0;
  email_shape = λ text. false;
  phone_token = λ text. none;
  iso_date_shape = λ text. false;
  digits = λ text. 0;
}

abbrev pub calm : Classification
calm = record { category = Category.benign; confidence = 9; model = "m" }

abbrev pub mild : Scanner
mild = record {
  classify = λ text. ok calm;
  is_live = true;
  confidence_threshold = 5;
  patterns = quiet;
}

-- A scanner whose provider is down.
abbrev pub down : Scanner
down = record mild { classify = λ text. err Failure.provider_error }

-- One that doubts everything.
abbrev wary : Scanner
wary = record mild { classify = λ text. ok (record calm { category = Category.spam }) }

process_scan_publishes_iff_example :
    (load_content ContentType.listing 10
        (process_scan mild (at 100) ContentType.listing 10 drafted).1
      ≡ some (with_status ModerationStatus.approved (listing_content draft)))
    ↔ ((c : Classification) × IsCleared mild
          (at 100)
          ContentType.listing
          (listing_content draft)
          drafted
          c)
process_scan_publishes_iff_example =
    process_scan_publishes_iff mild (at 100) ContentType.listing 10 drafted (listing_content draft)
      refl refl

mild_begins :
    begin_scan mild (at 100) ContentType.listing 10 drafted ≡ (ok (Verdict.approved calm), drafted)
unfolding begin_scan check live_content_gate count_recent_by_author
mild_begins = refl

down_fails :
    process_scan down (at 100) ContentType.listing 10 drafted
    ≡ (err Failure.provider_error, drafted)
unfolding process_scan begin_scan check live_content_gate count_recent_by_author
down_fails = refl

abbrev fresh : Db
fresh = record drafted { queue = [] }

abbrev scanned : Db
scanned = (process_scan wary (at 100) ContentType.listing 10 fresh).1

wary_files :
    process_scan wary (at 100) ContentType.listing 10 fresh ≡ (ok (Outcome.escalated 20), scanned)
unfolding process_scan begin_scan finish_scan check live_content_gate count_recent_by_author
    homeplate.Database.with_transaction homeplate.Moderation.Repo.insert_decision
    homeplate.Moderation.Repo.insert_queue_item
wary_files = refl

process_scan_again_example :
    (process_scan mild (at 900) ContentType.listing 10 scanned).1.queue ≡ scanned.queue
process_scan_again_example =
    process_scan_again wary mild (at 100) (at 900) ContentType.listing 10 fresh scanned
      (Outcome.escalated 20) wary_files

decide_settles_example :
    let (reply, after) = decide (at 200) moderator 12 Choice.reject Category.spam none drafted in
    (reply
      ≡ ok (record {
        item = some (settled_item (at 200) 20 9 waiting);
        decision_id = 20;
        content_exists = true;
      }))
    × (load_content ContentType.listing 10 after
        ≡ content_in
            (with_status ModerationStatus.rejected)
            (load_content ContentType.listing 10 drafted))
    × (after.decisions
        ≡ (20, ruling (at 200) moderator Choice.reject Category.spam none waiting) ∷ [])
    × (lookup 12 after.queue ≡ some (settled_item (at 200) 20 9 waiting))
decide_settles_example =
    decide_settles (at 200) moderator 12 Choice.reject Category.spam none drafted waiting refl refl
      refl

abbrev guest : Auth
guest = record { user_id = 2; is_moderator = false }

overtaken_scan_publishes_example :
    let mid = (decide (at 150) moderator 12 Choice.reject Category.spam none drafted).1 in
    (content : Content) × (load_content ContentType.listing 10 mid
      ≡ some (with_status ModerationStatus.rejected content))
    × (load_content ContentType.listing 10
          (finish_scan (at 200) ContentType.listing 10 (Verdict.approved calm) mid).1
        ≡ some (with_status ModerationStatus.approved content))
overtaken_scan_publishes_example =
    overtaken_scan_publishes mild (at 100) (at 150) (at 200) moderator 12 Category.spam none calm
      waiting drafted mild_begins refl refl refl
