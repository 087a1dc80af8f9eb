-- ===== src/System/Queue.antt =====
-- The queue of the moderators under everything that writes it: the transactions of scans and of
-- decisions and the statement of the alert handler, in any order.
use homeplate.Base.{ℕ, ◌≡◌, ◌≤◌, Option, none, sym, ap}
use mathlib.Core.Path.{subst}
use homeplate.Table.{count}
use homeplate.Database.{Auth, Db, Env, ContentType, Category, Note, QueueReason}
use homeplate.Moderation.Repo.{is_open_for}
use homeplate.Moderation.Service.{Verdict, finish_scan}
use homeplate.Moderation.Decision.{Choice, decide}
use homeplate.Moderation.Writing.{insert_queue_item_ok}
use homeplate.Moderation.Queueing.{
  IsQueued, same_queue-IsQueued, finish_scan-IsQueued, decide-IsQueued, filed-IsQueued,
}
use homeplate.Safety.Repo.{file_unified_queue_entry}

-- One commit. A scan may have read its verdict at any time before; whatever else commits leaves
-- the queue alone.
pub data Commit : Db → Db → Type 0 where
  scan :
      (env : Env) (type : ContentType) (id : ℕ) (v : Verdict) (db : Db)
      → Commit db (finish_scan env type id v db).1
  decision :
      (env : Env) (auth : Auth) (item : ℕ) (choice : Choice) (category : Category)
      (note : Option Note) (db : Db)
      → Commit db (decide env auth item choice category note db).1
  file : (env : Env) (alert : ℕ) (db : Db) → Commit db (file_unified_queue_entry env alert db).1
  elsewhere : (db db' : Db) → db'.queue ≡ db.queue → Commit db db'

-- The states that commits lead to.
pub data Leads (start : Db) : Db → Type 0 where
  begin : Leads start start
  next : {db db' : Db} → Leads start db → Commit db db' → Leads start db'

file-IsQueued :
    (env : Env) (alert : ℕ) (db : Db)
    → IsQueued db
    → IsQueued (file_unified_queue_entry env alert db).1
unfolding file_unified_queue_entry
file-IsQueued env alert db v =
    let (created, ran) =
      insert_queue_item_ok env ContentType.safety_alert alert QueueReason.safety_alert none db in
    subst IsQueued (sym (ap (λ p. p.1) ran))
      (filed-IsQueued env ContentType.safety_alert alert QueueReason.safety_alert none db v)

Commit-IsQueued : {db db' : Db} → Commit db db' → IsQueued db → IsQueued db'
Commit-IsQueued (Commit.scan env type id v db) q = finish_scan-IsQueued env type id v db q
Commit-IsQueued (Commit.decision env auth item choice category note db) q =
    decide-IsQueued env auth item choice category note db q
Commit-IsQueued (Commit.file env alert db) q = file-IsQueued env alert db q
Commit-IsQueued (Commit.elsewhere db db' same) q = same_queue-IsQueued db db' same q

Leads-IsQueued : {start db : Db} → IsQueued start → Leads start db → IsQueued db
Leads-IsQueued v Leads.begin = v
Leads-IsQueued v (Leads.next r s) = Commit-IsQueued s (Leads-IsQueued v r)

-- From a database in which no content has two unresolved queue items, no order of scans,
-- decisions, alert deliveries and commits that leave the queue leads to one in which some has.
pub one_open_item :
    {start db : Db} (type : ContentType) (id : ℕ)
    → ((kind : ContentType) (k : ℕ) → count (is_open_for kind k) start.queue ≤ 1)
    → Leads start db
    → count (is_open_for type id) db.queue ≤ 1
one_open_item type id v r = Leads-IsQueued v r type id
