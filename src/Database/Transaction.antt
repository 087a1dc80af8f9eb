-- ===== src/Database/Transaction.antt =====
-- src/db/tx.js: statements that run on one client, and the transaction around them.
use homeplate.Base.{[], ℕ, Bool, Option, none, some, if◌then◌else◌}
use homeplate.Table.{Table}
use homeplate.Database.Rows.{
  Listing, Booking, Review, Message, SafetyAlert, Decision, QueueItem, JobType, Payload, DedupeKey,
  JobStatus,
}
use homeplate.Database.Accounts.{
  User, HostProfile, VerificationToken, DataRequest, MediaObject, NotificationAttempt, AccessRow,
  Session,
}
use homeplate.Database.Failures.{Failure}

-- What a call sees of the world: PostgreSQL's now(), Date.now() in Node, the request's correlation
-- id, and which outbox rows other transactions hold locked.
pub record Env : Type 0 where
  pub now : ℕ
  pub date_now : ℕ
  pub correlation_id : Option ℕ
  pub row_locked : ℕ → Bool

-- req.auth: the user of the session, and whether the roles include 'moderator'.
pub record Auth : Type 0 where
  pub user_id : ℕ
  pub is_moderator : Bool

pub record Job : Type 0 where
  pub type : JobType
  pub payload : Payload
  pub correlation_id : Option ℕ
  pub dedupe_key : Option DedupeKey
  pub status : JobStatus
  pub attempt_count : ℕ
  pub available_at : ℕ
  pub delivered_at : Option ℕ
  pub last_error : Option Failure
  pub created_at : ℕ

-- The tables, and the sessions of Redis, which no transaction writes. Every new row takes its id
-- from `next_id`, which stands for gen_random_uuid() and IDENTITY.
pub record Db : Type 0 where
  pub listings : Table Listing
  pub bookings : Table Booking
  pub jobs : Table Job
  pub reviews : Table Review
  pub messages : Table Message
  pub safety_alerts : Table SafetyAlert
  pub decisions : Table Decision
  pub queue : Table QueueItem
  pub users : Table User
  pub host_profiles : Table HostProfile
  pub verification_tokens : Table VerificationToken
  pub data_requests : Table DataRequest
  pub media_objects : Table MediaObject
  pub notification_attempts : Table NotificationAttempt
  pub access_log : Table AccessRow
  pub sessions : Table Session
  pub next_id : ℕ

abbrev pub empty_db : Db
empty_db = record {
  listings = [];
  bookings = [];
  jobs = [];
  reviews = [];
  messages = [];
  safety_alerts = [];
  decisions = [];
  queue = [];
  users = [];
  host_profiles = [];
  verification_tokens = [];
  data_requests = [];
  media_objects = [];
  notification_attempts = [];
  access_log = [];
  sessions = [];
  next_id = 1;
}

pub data Result {ℓ} (A : Type ℓ) : Type ℓ where
  ok : A → Result A
  err : Failure → Result A

-- Statements on a client: what they wrote before a throw is still there, until a rollback.
abbrev pub Tx : Type 0 → Type 0
Tx A = Db → Result A × Db

module _ {A : Type 0} where
  abbrev pub pure : A → Tx A
  pure a db = (ok a, db)

  abbrev pub throw : Failure → Tx A
  throw e db = (err e, db)

  abbrev pub query : (Db → A) → Tx A
  query f db = (ok (f db), db)

-- What follows a call: the rest on its value, or its error.
abbrev pub resume : {A B : Type 0} → (A → Tx B) → Result A × Db → Result B × Db
resume f p = elim p.0 [ ok a ↦ f a p.1 | err e ↦ (err e, p.1) ]

infixl 5 ◌>>=◌ ◌>>◌
abbrev pub ◌>>=◌ : {A B : Type 0} → Tx A → (A → Tx B) → Tx B
◌>>=◌ m f db = resume f (m db)

abbrev pub ◌>>◌ : {A B : Type 0} → Tx A → Tx B → Tx B
m >> k = m >>= λ _. k

abbrev pub throw_if : Bool → Failure → Tx (Unit {0})
throw_if c e db = (if c then err e else ok tt, db)

-- `if (!row) throw …`
abbrev pub some_or_throw : {A : Type 0} → Option A → Failure → Tx A
some_or_throw none e db = (err e, db)
some_or_throw (some a) e db = (ok a, db)

-- COMMIT, or ROLLBACK to the state before.
abbrev pub commit : {A : Type 0} → Db → Result A × Db → Result A × Db
commit before p = elim p.0 [ ok a ↦ (ok a, p.1) | err e ↦ (err e, before) ]

-- BEGIN, the body, COMMIT; a throw rolls back and is thrown again.
unfoldable pub with_transaction : {A : Type 0} → Tx A → Tx A
with_transaction body db = commit db (body db)
