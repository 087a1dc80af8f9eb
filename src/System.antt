-- ===== src/System.antt =====
-- The services together, of bookings, listings, moderation, messages, reviews, alerts and account
-- deletion: any order of their calls.
pub mod Queue
pub mod Sound
pub mod Accounts
pub mod Others
mod Tests
use homeplate.Base.{ℕ, ◌+◌, ◌≡◌, ◌≤◌, Option, some, String}
use homeplate.Table.{lookup}
use homeplate.Database.{Auth, Db, Env, Tx, Listing, ContentType, Category, Note, ErasureReason}
use homeplate.Moderation.Service.{Verdict, finish_scan}
use homeplate.Moderation.Decision.{Choice, decide}
use homeplate.Messaging.Thread.{post_message}
use homeplate.Reviews.Service.{create_review}
use homeplate.Safety.Repo.{file_unified_queue_entry}
use homeplate.Safety.Service.{raise_alert, escalate_alert}
use homeplate.Auth.Sessions.{Scan}
use homeplate.Media.Service.{Storage}
use homeplate.Privacy.Service.{Windows, Notice, request_deletion, process_erasure}
use homeplate.Privacy.Notice.{IsNoticeOnly}
use homeplate.Handlers.{erasure_deps}
use homeplate.System.Accounts.{request_deletion-KeepsSound, process_erasure-IsSound}
use homeplate.System.Others.{
  finish_scan-IsSound, decide-IsSound, post_message-IsSound, create_review-IsSound,
  raise_alert-IsSound, escalate_alert-IsSound, file_unified_queue_entry-IsSound,
}
use homeplate.Bookings.Service.{create_booking, cancel_booking, confirm_completion}
use homeplate.Bookings.Lifecycle.{promote_due_booking}
use homeplate.Bookings.Seats.{IsSound, seats_held}
use homeplate.Bookings.Reservation.{create_booking-IsSound}
use homeplate.Bookings.Cancellation.{cancel_booking-IsSound}
use homeplate.Bookings.Completion.{confirm_completion-IsSound}
use homeplate.Bookings.Rescheduling.{IsIssued}
use homeplate.Bookings.Promotion.{promote_due_booking-IsSound}
use homeplate.Listings.Mehko.{Locale}
use homeplate.Listings.Service.{NewListing, create_listing, cancel_listing}
use homeplate.Listings.Update.{Patch, update_listing}
use homeplate.Listings.Creation.{create_listing-IsSound}
use homeplate.Listings.Closing.{cancel_listing-IsSound}
use homeplate.Listings.Change.{update_listing-IsSound}

-- One call, at any time and by anyone, with what it leaves whether it succeeds or not.
pub data Step : Db → Db → Type 0 where
  reserve :
      (env : Env) (cap guest listing : ℕ) (db : Db)
      → Step db (create_booking env cap guest listing db).1
  cancel : (env : Env) (user id : ℕ) (db : Db) → Step db (cancel_booking env user id db).1
  confirm : (env : Env) (user id : ℕ) (db : Db) → Step db (confirm_completion env user id db).1
  promote :
      (env : Env) (id : ℕ) (delivering : Option ℕ) (db : Db)
      → IsIssued delivering db.next_id
      → Step db (promote_due_booking env id delivering db).1
  publish :
      (env : Env) (caps : Locale) (host : ℕ) (input : NewListing) (db : Db)
      → Step db (create_listing env caps host input db).1
  change :
      (env : Env) (caps : Locale) (user id : ℕ) (patch : Patch) (db : Db)
      → Step db (update_listing env caps user id patch db).1
  close : (env : Env) (user id : ℕ) (db : Db) → Step db (cancel_listing env user id db).1
  -- a scan, whose verdict may be from any time before, and a moderator's decision
  scan :
      (env : Env) (type : ContentType) (id : ℕ) (w : Verdict) (db : Db)
      → Step db (finish_scan env type id w db).1
  decision :
      (env : Env) (auth : Auth) (item : ℕ) (choice : Choice) (category : Category)
      (note : Option Note) (db : Db)
      → Step db (decide env auth item choice category note db).1
  post :
      (env : Env) (user booking : ℕ) (body : String) (db : Db)
      → Step db (post_message env user booking body db).1
  review :
      (env : Env) (user booking rating : ℕ) (comment : String) (db : Db)
      → Step db (create_review env user booking rating comment db).1
  raise : (env : Env) (user booking : ℕ) (db : Db) → Step db (raise_alert env user booking db).1
  escalate :
      (env : Env) (auth : Auth) (booking : ℕ) (db : Db)
      → Step db (escalate_alert env auth booking db).1
  file : (env : Env) (alert : ℕ) (db : Db) → Step db (file_unified_queue_entry env alert db).1
  -- the deletion of an account, and the delivery of its erasure
  delete_account :
      (env : Env) (w : Windows) (scan : Scan) (user : ℕ) (token : Option ℕ) (db : Db)
      → Step db (request_deletion env w scan user token db).1
  erase_account :
      (env : Env) (w : Windows) (works : Storage) (send : (user request : ℕ) → Tx (Option Notice))
      (scan : Scan) (user request : ℕ) (reason : ErasureReason) (db : Db)
      → IsNoticeOnly (erasure_deps works send)
      → Step db (process_erasure env w (erasure_deps works send) scan user request reason db).1

-- The states that calls lead to.
pub data Reach (start : Db) : Db → Type 0 where
  begin : Reach start start
  next : {db db' : Db} → Reach start db → Step db db' → Reach start db'

Step-IsSound : {db db' : Db} → Step db db' → IsSound db → IsSound db'
Step-IsSound (Step.reserve env cap guest listing db) v =
    create_booking-IsSound env cap guest listing db v
Step-IsSound (Step.cancel env user id db) v = cancel_booking-IsSound env user id db v
Step-IsSound (Step.confirm env user id db) v = confirm_completion-IsSound env user id db v
Step-IsSound (Step.promote env id delivering db issued) v =
    promote_due_booking-IsSound env id delivering db issued v
Step-IsSound (Step.publish env caps host input db) v =
    create_listing-IsSound env caps host input db v
Step-IsSound (Step.change env caps user id patch db) v =
    update_listing-IsSound env caps user id patch db v
Step-IsSound (Step.close env user id db) v = cancel_listing-IsSound env user id db v
Step-IsSound (Step.scan env type id w db) v = finish_scan-IsSound env type id w db v
Step-IsSound (Step.decision env auth item choice category note db) v =
    decide-IsSound env auth item choice category note db v
Step-IsSound (Step.post env user booking body db) v =
    post_message-IsSound env user booking body db v
Step-IsSound (Step.review env user booking rating comment db) v =
    create_review-IsSound env user booking rating comment db v
Step-IsSound (Step.raise env user booking db) v = raise_alert-IsSound env user booking db v
Step-IsSound (Step.escalate env auth booking db) v = escalate_alert-IsSound env auth booking db v
Step-IsSound (Step.file env alert db) v = file_unified_queue_entry-IsSound env alert db v
Step-IsSound (Step.delete_account env w sessions user token db) v =
    request_deletion-KeepsSound env w sessions user token db v
Step-IsSound (Step.erase_account env w works send sessions user request reason db notice_only) v =
    process_erasure-IsSound env w works send sessions user request reason notice_only db v

Reach-IsSound : {start db : Db} → IsSound start → Reach start db → IsSound db
Reach-IsSound v Reach.begin = v
Reach-IsSound v (Reach.next r s) = Step-IsSound s (Reach-IsSound v r)

-- From a sound state, no order of calls of the services of bookings, listings, moderation, messages,
-- reviews, alerts and account deletion, whoever makes them and whichever of them fail, overbooks a
-- listing: the bookings that hold its seats, with the seats that it shows as free, stay within its
-- capacity.
pub no_overbooking :
    (start db : Db) (k : ℕ) (l : Listing)
    → IsSound start
    → Reach start db
    → lookup k db.listings ≡ some l
    → l.seats_remaining + seats_held k db ≤ l.seat_capacity
no_overbooking start db k l v r found = let w = Reach-IsSound v r in w.seats k l found
