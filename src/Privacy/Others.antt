-- ===== src/Privacy/Others.antt =====
-- What an erasure leaves of the rows of others, and of the contents that are kept.
use homeplate.Table.Laws.{lookup-update_all}
use homeplate.Base.{
  none, some, ◌≢◌, if◌then◌else◌, ◌==◌, arith, inl, inr, Option-cases, Bool-cases, ℕ, Option,
  String, ◌≡◌, refl, sym, ap, ◌∙◌,
}
use mathlib.Core.Path.{subst}
use homeplate.Table.{Table, lookup, remove, delete_where, update_all}
use homeplate.Table.Updates.{view, view-update_all, delete_where-update_all, remove-modify}
use homeplate.Database.{
  Db, Env, ok, ErasureReason, Review, Message, SafetyAlert, ModerationStatus, DeliveryStatus,
}
use homeplate.Auth.Sessions.{Scan}
use homeplate.Privacy.Requests.{mark_request_processing}
use homeplate.Privacy.Erasing.{
  is_hosted_by, scrubbed, without_author, without_target, without_sender, without_raiser, is_author,
  is_target, is_sender, is_raiser, emptied, without_bio,
}
use homeplate.Privacy.Service.{Deps, Windows, Phase, process_erasure}
use homeplate.Privacy.Forgetting.{emptied_db}
use homeplate.Privacy.Erasure.{processing, erase_inv, process_erasure_inv}
use homeplate.Privacy.Outcome.{IsMediaOnly}

-- What a review, a message and an alert say beside their people, and a message beside its text.
abbrev pub review_content : Review → ℕ × ℕ × Option String × ModerationStatus × ℕ
review_content r = (r.booking_id, r.rating, r.body, r.moderation_status, r.created_at)

abbrev pub message_place : Message → ℕ × ModerationStatus × ℕ
message_place m = (m.booking_id, m.moderation_status, m.created_at)

abbrev pub alert_content : SafetyAlert → ℕ × DeliveryStatus × Option ℕ × ℕ
alert_content a = (a.booking_id, a.delivery_status, a.delivered_at, a.created_at)

-- An account that a row names, when the user is forgotten.
abbrev pub hidden : ℕ → Option ℕ → Option ℕ
hidden user none = none
hidden user (some a) = if a == user then none else some a

abbrev pub review_left : ℕ → Review → Review
review_left user r = record r {
  author_id = hidden user r.author_id;
  target_user_id = hidden user r.target_user_id;
}

abbrev pub alert_left : ℕ → SafetyAlert → SafetyAlert
alert_left user a = record a { raised_by = hidden user a.raised_by }

-- The rows of others, and the reviews, messages and alerts but for their people.
pub record IsSpared (user : ℕ) (db db' : Db) : Type 0 where
  pub users : remove user db'.users ≡ remove user db.users
  pub profiles : remove user db'.host_profiles ≡ remove user db.host_profiles
  pub listings :
      delete_where (is_hosted_by user) db'.listings ≡ delete_where (is_hosted_by user) db.listings
  pub reviews : view review_content db'.reviews ≡ view review_content db.reviews
  -- each review names the people that it named, but for the user
  pub review_rows :
      (k : ℕ) (r : Review)
      → lookup k db.reviews ≡ some r
      → lookup k db'.reviews ≡ some (review_left user r)
  -- each message of another is as it was
  pub message_rows :
      (k : ℕ) (m : Message)
      → lookup k db.messages ≡ some m
      → m.sender_id ≢ some user
      → lookup k db'.messages ≡ some m
  pub alert_rows :
      (k : ℕ) (a : SafetyAlert)
      → lookup k db.safety_alerts ≡ some a
      → lookup k db'.safety_alerts ≡ some (alert_left user a)
  pub messages : view message_place db'.messages ≡ view message_place db.messages
  pub alerts : view alert_content db'.safety_alerts ≡ view alert_content db.safety_alerts
  pub bookings : db'.bookings ≡ db.bookings
  pub jobs : db'.jobs ≡ db.jobs
  pub decisions : db'.decisions ≡ db.decisions
  pub queue : db'.queue ≡ db.queue

review-left :
    (user k : ℕ) (t : Table Review) (r : Review)
    → lookup k t ≡ some r
    → lookup k
        (update_all (is_target user) without_target (update_all (is_author user) without_author t))
      ≡ some (review_left user r)
review-left user k t r e =
    let authored = lookup-update_all k (is_author user) without_author t in
    let both =
      lookup-update_all k (is_target user) without_target
        (update_all (is_author user) without_author t) in
    elim (Option-cases r.author_id) [
      | inl x ↦ elim (Option-cases r.target_user_id) [
        | inl y ↦ ground (arith, e, authored, both, x, y)
        | inr (b, y) ↦ ground (arith, e, authored, both, x, y)
      ]
      | inr (a, x) ↦ elim (Option-cases r.target_user_id) [
        | inl y ↦ ground (arith, e, authored, both, x, y)
        | inr (b, y) ↦ ground (arith, e, authored, both, x, y)
      ]
    ]

message-left :
    (user k : ℕ) (t : Table Message) (m : Message)
    → lookup k t ≡ some m
    → m.sender_id ≢ some user
    → lookup k (update_all (is_sender user) without_sender t) ≡ some m
message-left user k t m e other =
    let sent = lookup-update_all k (is_sender user) without_sender t in
    elim (Option-cases m.sender_id) [
      | inl x ↦ ground (arith, e, sent, x)
      | inr (a, x) ↦ elim (Bool-cases (a == user)) [
        | inl mine ↦ absurd (other (x ∙ ap some (ground (arith, mine))))
        | inr apart ↦ ground (arith, e, sent, x, apart)
      ]
    ]

alert-left :
    (user k : ℕ) (t : Table SafetyAlert) (a : SafetyAlert)
    → lookup k t ≡ some a
    → lookup k (update_all (is_raiser user) without_raiser t) ≡ some (alert_left user a)
alert-left user k t a e =
    let raised = lookup-update_all k (is_raiser user) without_raiser t in
    elim (Option-cases a.raised_by) [
      | inl x ↦ ground (arith, e, raised, x)
      | inr (b, x) ↦ ground (arith, e, raised, x)
    ]

emptied_db-IsSpared :
    (env : Env) (user request media : ℕ) (db : Db)
    → IsSpared user db (emptied_db env user request media db)
emptied_db-IsSpared env user request media db = record {
  users = remove-modify user (emptied user env.date_now) db.users;
  profiles = remove-modify user without_bio db.host_profiles;
  listings = delete_where-update_all (is_hosted_by user) scrubbed db.listings (λ l h. h);
  reviews =
      view-update_all review_content (is_target user) without_target
        (update_all (is_author user) without_author db.reviews) (λ r. refl)
      ∙ view-update_all review_content (is_author user) without_author db.reviews (λ r. refl);
  review_rows = λ k r e. review-left user k db.reviews r e;
  message_rows = λ k m e other. message-left user k db.messages m e other;
  alert_rows = λ k a e. alert-left user k db.safety_alerts a e;
  messages = view-update_all message_place (is_sender user) without_sender db.messages (λ m. refl);
  alerts =
      view-update_all alert_content (is_raiser user) without_raiser db.safety_alerts (λ a. refl);
  bookings = refl;
  jobs = refl;
  decisions = refl;
  queue = refl;
}

-- An erasure that was done, given that the media service writes no table but its own, leaves the
-- users, profiles and listings of others, the bookings, the outbox, the decisions and the queue as
-- they were; all reviews, messages and alerts are still there with what they say beside their people,
-- but for the texts of messages. Each review and alert still names the people that it named but for
-- the user, and a message that the user did not send is as it was, its sender and text included.
pub process_erasure_spares :
    (env : Env) (w : Windows) (deps : Deps) (scan : Scan) (user request : ℕ)
    (reason : ErasureReason) (db db' : Db) (media : ℕ)
    → IsMediaOnly deps
    → process_erasure env w deps scan user request reason db ≡ (ok (Phase.erased media), db')
    → IsSpared user db db'
unfolding mark_request_processing
process_erasure_spares env w deps scan user request reason db db' media media_only ran =
    let (_, did) = process_erasure_inv env w deps scan user request reason db db' media ran in
    let (m, mid, deleted, _, is) = erase_inv env deps scan user request db db' _ did in
    let marked = processing env deps scan user request db in
    let written : mid ≡ record marked { media_objects = mid.media_objects } =
      subst (λ (d : Db). d ≡ record marked { media_objects = d.media_objects })
        (ap (λ q. q.1) deleted) (media_only user marked) in
    let v = emptied_db-IsSpared env user request m mid in
    subst (λ (d : Db). IsSpared user db d) (sym is)
      (record {
        users = v.users ∙ ap (λ (d : Db). remove user d.users) written;
        profiles = v.profiles ∙ ap (λ (d : Db). remove user d.host_profiles) written;
        listings =
            v.listings ∙ ap (λ (d : Db). delete_where (is_hosted_by user) d.listings) written;
        reviews = v.reviews ∙ ap (λ (d : Db). view review_content d.reviews) written;
        review_rows = λ k r e. v.review_rows k r (ap (λ (d : Db). lookup k d.reviews) written ∙ e);
        message_rows = λ k m e other.
            v.message_rows k m (ap (λ (d : Db). lookup k d.messages) written ∙ e) other;
        alert_rows =
            λ k a e. v.alert_rows k a (ap (λ (d : Db). lookup k d.safety_alerts) written ∙ e);
        messages = v.messages ∙ ap (λ (d : Db). view message_place d.messages) written;
        alerts = v.alerts ∙ ap (λ (d : Db). view alert_content d.safety_alerts) written;
        bookings = ap (λ (d : Db). d.bookings) written;
        jobs = ap (λ (d : Db). d.jobs) written;
        decisions = ap (λ (d : Db). d.decisions) written;
        queue = ap (λ (d : Db). d.queue) written;
      })
