-- ===== src/Moderation/Queueing.antt =====
-- The queue of the moderators: no content has two unresolved items, whatever scans, decisions and
-- deliveries of alerts do, in whatever order their transactions commit.
use homeplate.Base.{
  ℕ, ◌≤◌, ◌≡◌, refl, sym, ap, Option, none, some, [], ◌∷◌, arith, inl, inr, Option-cases,
  Bool-cases,
}
use mathlib.Core.Path.{subst}
use homeplate.Table.{Table, lookup, modify, count}
use homeplate.Table.Laws.{count-modify, modify-absent}
use homeplate.Database.{Auth, Db, Env, ContentType, QueueItem, QueueReason, Category, Note}
use homeplate.Moderation.Repo.{is_open_for, find_open, type_tag, new_queue_item, resolve_at}
use homeplate.Moderation.Service.{
  Verdict, finish_scan, rejection, full_confidence, approval, escalation,
}
use homeplate.Moderation.Decision.{Choice, decide}
use homeplate.Moderation.Writing.{recorded, filed}
use homeplate.Moderation.Scanning.{written, finish_scan_ok}
use homeplate.Moderation.Writing.{queue-flipped}
use homeplate.Moderation.Deciding.{decided, decide-cases}

-- At most one unresolved item for every content: moderation_queue_open_content_key.
abbrev pub IsQueued : Db → Type 0
IsQueued db = (type : ContentType) (id : ℕ) → count (is_open_for type id) db.queue ≤ 1

open_none :
    (type kind : ContentType) (id k : ℕ) (t : Table QueueItem)
    → type_tag kind ≡ type_tag type
    → k ≡ id
    → find_open kind k t ≡ none
    → count (is_open_for type id) t ≡ 0
open_none type kind id k [] tags ids free = refl
open_none type kind id k ((j, q) ∷ t) tags ids free =
    ground (arith, open_none type kind id k t tags ids)

pub filed-IsQueued :
    (env : Env) (kind : ContentType) (k : ℕ) (reason : QueueReason) (d : Option ℕ) (db : Db)
    → IsQueued db
    → IsQueued (filed env kind k reason d db)
filed-IsQueued env kind k reason d db v type id = elim (Option-cases (find_open kind k db.queue)) [
  | inr (row, open_) ↦ ground (arith, v type id)
  | inl free ↦ elim (Bool-cases (is_open_for type id (new_queue_item env kind k reason d))) [
    | inr other ↦ ground (arith, v type id)
    | inl mine ↦
        let none_open : count (is_open_for type id) db.queue ≡ 0 =
          open_none type kind id k db.queue (ground arith) (ground arith) free in
        ground arith
  ]
]

pub same_queue-IsQueued : (db db' : Db) → db'.queue ≡ db.queue → IsQueued db → IsQueued db'
same_queue-IsQueued db db' e v type id =
    subst (λ (t : Table QueueItem). count (is_open_for type id) t ≤ 1) (sym e) (v type id)

resolved-IsQueued :
    (env : Env) (item row moderator : ℕ) (db db' : Db)
    → db'.queue ≡ modify item (resolve_at env row moderator) db.queue
    → IsQueued db
    → IsQueued db'
resolved-IsQueued env item row moderator db db' e v type id =
    let shut = resolve_at env row moderator in
    let fewer : count (is_open_for type id) (modify item shut db.queue) ≤ 1 =
      elim (Option-cases (lookup item db.queue)) [
        | inl gone ↦ rw (modify-absent item shut db.queue gone) (v type id)
        | inr (q, found) ↦
            ground (arith, count-modify (is_open_for type id) item shut q db.queue found, v type id)
      ] in
    subst (λ (t : Table QueueItem). count (is_open_for type id) t ≤ 1) (sym e) fewer

written-IsQueued :
    (env : Env) (type : ContentType) (id : ℕ) (v : Verdict) (db : Db)
    → IsQueued db
    → IsQueued (written env type id v db)
written-IsQueued env type id Verdict.skipped_missing db q = q
written-IsQueued env type id Verdict.skipped_decided db q = q
written-IsQueued env type id (Verdict.rejected rule) db q =
    same_queue-IsQueued db (written env type id (Verdict.rejected rule) db)
      (queue-flipped type id _ (recorded env type id (rejection rule full_confidence) db)) q
written-IsQueued env type id (Verdict.escalated e) db q =
    filed-IsQueued env type id e.reason (some db.next_id) (recorded env type id (escalation e) db) q
written-IsQueued env type id (Verdict.approved c) db q =
    same_queue-IsQueued db (written env type id (Verdict.approved c) db)
      (queue-flipped type id _ (recorded env type id (approval c) db)) q

pub finish_scan-IsQueued :
    (env : Env) (type : ContentType) (id : ℕ) (v : Verdict) (db : Db)
    → IsQueued db
    → IsQueued (finish_scan env type id v db).1
finish_scan-IsQueued env type id v db q =
    subst IsQueued (sym (ap (λ p. p.1) (finish_scan_ok env type id v db)))
      (written-IsQueued env type id v db q)

decided-IsQueued :
    (env : Env) (auth : Auth) (item : ℕ) (choice : Choice) (category : Category)
    (note : Option Note) (q : QueueItem) (db : Db)
    → IsQueued db
    → IsQueued (decided env auth item choice category note q db)
decided-IsQueued env auth item choice category note q db =
    resolved-IsQueued env item db.next_id auth.user_id db
      (decided env auth item choice category note q db) refl

pub decide-IsQueued :
    (env : Env) (auth : Auth) (item : ℕ) (choice : Choice) (category : Category)
    (note : Option Note) (db : Db)
    → IsQueued db
    → IsQueued (decide env auth item choice category note db).1
decide-IsQueued env auth item choice category note db v =
    elim (decide-cases env auth item choice category note db) [
      | inl (q, ran) ↦
          subst IsQueued (sym (ap (λ p. p.1) ran))
            (decided-IsQueued env auth item choice category note q db v)
      | inr (x, ran) ↦ subst IsQueued (sym (ap (λ p. p.1) ran)) v
    ]
