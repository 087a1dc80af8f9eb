-- ===== src/System/Others.antt =====
-- The seats under the other modules: moderation, messages, reviews and alerts take and free none.
use mathlib.Core.Path.{subst}
use homeplate.Base.{ℕ, refl, sym, ap, Option, none, some, arith, inl, inr, Option-cases, String}
use homeplate.Table.{lookup}
use homeplate.Table.Laws.{lookup-modify}
use homeplate.Database.{
  Auth, Db, Env, Tx, SafetyAlert, ModerationStatus, ContentType, QueueReason, Category, Note,
}
use homeplate.Bookings.Seats.{IsSound, same_tables-IsSound}
use homeplate.Moderation.Repo.{NewDecision, with_listing_status, find_open}
use homeplate.Moderation.Service.{
  Verdict, finish_scan, rejection, full_confidence, approval, escalation,
}
use homeplate.Moderation.Decision.{Choice, decide}
use homeplate.Moderation.Writing.{flipped, recorded, filed, insert_queue_item_ok}
use homeplate.Moderation.Scanning.{written, finish_scan_ok}
use homeplate.Moderation.Deciding.{decided, decide-cases}
use homeplate.Safety.Repo.{file_unified_queue_entry}
use homeplate.Safety.Service.{raise_alert, escalate_alert}
use homeplate.Safety.Raising.{Alerts, alerted_by, raise_alert_branches, escalate_alert_branches}
use homeplate.Messaging.Thread.{post_message}
use homeplate.Messaging.Posting.{posted, post_message_branches}
use homeplate.Reviews.Service.{create_review}
use homeplate.Reviews.Creation.{other_party, reviewed, create_review_branches}

flipped-IsSound :
    (type : ContentType) (id : ℕ) (s : ModerationStatus) (db : Db)
    → IsSound db
    → IsSound (flipped type id s db)
flipped-IsSound ContentType.listing id s db v =
    let f = with_listing_status s in
    record {
      seats = λ k l e. elim (Option-cases (lookup k db.listings)) [
        | inl gone ↦ absurd (ground (arith, lookup-modify k id f db.listings))
        | inr (x, found) ↦ ground (arith, lookup-modify k id f db.listings, v.seats k x found)
      ];
      listing_ids = λ k l e. elim (Option-cases (lookup k db.listings)) [
        | inl gone ↦ absurd (ground (arith, lookup-modify k id f db.listings))
        | inr (x, found) ↦ v.listing_ids k x found
      ];
      unheld = v.unheld;
      confirmed = v.confirmed;
    }
flipped-IsSound ContentType.review id s db v =
    same_tables-IsSound db (flipped ContentType.review id s db) refl refl (omega arith) v
flipped-IsSound ContentType.message id s db v =
    same_tables-IsSound db (flipped ContentType.message id s db) refl refl (omega arith) v
flipped-IsSound ContentType.safety_alert id s db v = v

recorded-IsSound :
    (env : Env) (type : ContentType) (id : ℕ) (d : NewDecision) (db : Db)
    → IsSound db
    → IsSound (recorded env type id d db)
recorded-IsSound env type id d db v =
    same_tables-IsSound db (recorded env type id d db) refl refl (omega arith) v

filed-IsSound :
    (env : Env) (type : ContentType) (id : ℕ) (reason : QueueReason) (d : Option ℕ) (db : Db)
    → IsSound db
    → IsSound (filed env type id reason d db)
filed-IsSound env type id reason d db v =
    same_tables-IsSound db (filed env type id reason d db)
      (elim (Option-cases (find_open type id db.queue)) [
        | inl free ↦ ground arith
        | inr (row, there) ↦ ground arith
      ])
      (elim (Option-cases (find_open type id db.queue)) [
        | inl free ↦ ground arith
        | inr (row, there) ↦ ground arith
      ])
      (elim (Option-cases (find_open type id db.queue)) [
        | inl free ↦ ground arith
        | inr (row, there) ↦ ground arith
      ])
      v

written-IsSound :
    (env : Env) (type : ContentType) (id : ℕ) (w : Verdict) (db : Db)
    → IsSound db
    → IsSound (written env type id w db)
written-IsSound env type id Verdict.skipped_missing db v = v
written-IsSound env type id Verdict.skipped_decided db v = v
written-IsSound env type id (Verdict.rejected rule) db v =
    flipped-IsSound type id ModerationStatus.rejected _
      (recorded-IsSound env type id (rejection rule full_confidence) db v)
written-IsSound env type id (Verdict.escalated e) db v =
    filed-IsSound env type id e.reason (some db.next_id) _
      (recorded-IsSound env type id (escalation e) db v)
written-IsSound env type id (Verdict.approved c) db v =
    flipped-IsSound type id ModerationStatus.approved _
      (recorded-IsSound env type id (approval c) db v)

pub finish_scan-IsSound :
    (env : Env) (type : ContentType) (id : ℕ) (w : Verdict) (db : Db)
    → IsSound db
    → IsSound (finish_scan env type id w db).1
finish_scan-IsSound env type id w db v =
    subst IsSound (sym (ap (λ p. p.1) (finish_scan_ok env type id w db)))
      (written-IsSound env type id w db v)

pub decide-IsSound :
    (env : Env) (auth : Auth) (item : ℕ) (choice : Choice) (category : Category)
    (note : Option Note) (db : Db)
    → IsSound db
    → IsSound (decide env auth item choice category note db).1
decide-IsSound env auth item choice category note db v =
    elim (decide-cases env auth item choice category note db) [
      | inr (x, ran) ↦ subst IsSound (sym (ap (λ p. p.1) ran)) v
      | inl (q, ran) ↦
          let flip =
            flipped-IsSound q.content_type q.content_id _ _
              (recorded-IsSound env q.content_type q.content_id _ db v) in
          subst IsSound (sym (ap (λ p. p.1) ran)) (
            same_tables-IsSound _ (decided env auth item choice category note q db) refl refl
              (omega arith) flip)
    ]

pub post_message-IsSound :
    (env : Env) (user booking : ℕ) (body : String) (db : Db)
    → IsSound db
    → IsSound (post_message env user booking body db).1
post_message-IsSound env user booking body db v =
    elim (post_message_branches env user booking body db) [
      | inr (x, _, ran) ↦ subst IsSound (sym (ap (λ p. p.1) ran)) v
      | inl (_, ran) ↦
          subst IsSound (sym (ap (λ p. p.1) ran))
            (same_tables-IsSound db (posted env user booking body db) refl refl (omega arith) v)
    ]

pub create_review-IsSound :
    (env : Env) (user booking rating : ℕ) (comment : String) (db : Db)
    → IsSound db
    → IsSound (create_review env user booking rating comment db).1
create_review-IsSound env user booking rating comment db v =
    elim (create_review_branches env user booking rating comment db) [
      | inr (x, _, ran) ↦ subst IsSound (sym (ap (λ p. p.1) ran)) v
      | inl (b, l, role, _, ran) ↦ subst IsSound (sym (ap (λ p. p.1) ran)) (
          same_tables-IsSound db
            (reviewed env booking user (other_party b l role) rating comment db) refl refl
            (omega arith) v)
    ]

alerted_by-IsSound :
    (env : Env) (booking user : ℕ) (m : Tx (ℕ × SafetyAlert)) (db : Db)
    → Alerts env booking user m db
    → IsSound db
    → IsSound (m db).1
alerted_by-IsSound env booking user m db (jobs, next, ran, le, _, _) v =
    subst IsSound (sym (ap (λ p. p.1) ran)) (
      same_tables-IsSound db (alerted_by env booking user db jobs next) refl refl
        (omega (arith, le)) v)

pub raise_alert-IsSound :
    (env : Env) (user booking : ℕ) (db : Db)
    → IsSound db
    → IsSound (raise_alert env user booking db).1
raise_alert-IsSound env user booking db v = elim (raise_alert_branches env user booking db) [
  | inr (x, _, ran) ↦ subst IsSound (sym (ap (λ p. p.1) ran)) v
  | inl (_, _, _, _, alerts) ↦
      alerted_by-IsSound env booking user (raise_alert env user booking) db alerts v
]

pub escalate_alert-IsSound :
    (env : Env) (auth : Auth) (booking : ℕ) (db : Db)
    → IsSound db
    → IsSound (escalate_alert env auth booking db).1
escalate_alert-IsSound env auth booking db v = elim (escalate_alert_branches env auth booking db) [
  | inr (x, _, ran) ↦ subst IsSound (sym (ap (λ p. p.1) ran)) v
  | inl (_, _, _, _, alerts) ↦
      alerted_by-IsSound env booking auth.user_id (escalate_alert env auth booking) db alerts v
]

-- The statement of the alert handler on the queue.
pub file_unified_queue_entry-IsSound :
    (env : Env) (alert : ℕ) (db : Db)
    → IsSound db
    → IsSound (file_unified_queue_entry env alert db).1
unfolding file_unified_queue_entry
file_unified_queue_entry-IsSound env alert db v =
    let (created, ran) =
      insert_queue_item_ok env ContentType.safety_alert alert QueueReason.safety_alert none db in
    subst IsSound (sym (ap (λ p. p.1) ran))
      (filed-IsSound env ContentType.safety_alert alert QueueReason.safety_alert none db v)
