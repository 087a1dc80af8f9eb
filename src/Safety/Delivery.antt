-- ===== src/Safety/Delivery.antt =====
-- src/outbox/handlers/safetyAlert.js: the delivery of an alert. The mail transport, its log of
-- attempts and the decryption of the contact's address are parameters.
use homeplate.Base.{
  ℕ, suc, Bool, true, false, not, Option, none, some, List, [], ◌∷◌, leb, ltb, if◌then◌else◌,
  length,
}
use homeplate.Database.{
  Db, Env, Tx, Result, ok, err, ◌>>=◌, ◌>>◌, pure, throw, throw_if, SafetyAlert, DeliveryStatus,
  Failure,
}
use homeplate.Safety.Repo.{
  load_for_delivery, mark_delivered, mark_retrying, mark_failed, mark_no_channel,
  file_unified_queue_entry,
}

-- What decrypt makes of the raiser's emergency contact.
pub data Contact : Type 0 where
  unreadable absent address : Contact

pub record Channels : Type 0 where
  -- listModeratorIds
  pub moderators : List ℕ
  -- transport.send to a moderator, and to the contact: whether the status is 'sent'
  pub notify : ℕ → Result Bool
  pub contact : Contact
  pub deliver : Result Bool
  -- createAttempt and markNoChannel of an alert with a raiser
  pub log_no_channel : Result (Unit {0})
  -- config.outbox.maxAttempts
  pub max_attempts : ℕ

pub data Delivered : Type 0 where
  delivered no_channel noop : Delivered

-- A call to a service. What the transport writes into notification_attempts is left out.
abbrev pub call : {A : Type 0} → Result A → Tx A
call r db = (r, db)

abbrev pub is_marked_terminal : Failure → Bool
is_marked_terminal Failure.contact_unreadable = true
is_marked_terminal _ = false

abbrev pub is_terminal : DeliveryStatus → Bool
is_terminal DeliveryStatus.delivered = true
is_terminal DeliveryStatus.no_channel = true
is_terminal _ = false

module _ (c : Channels) where
  -- How many of the notices were not sent; a throw ends them.
  abbrev pub notices : List ℕ → Tx ℕ
  notices [] = pure 0
  notices (m ∷ ms) = call (c.notify m) >>= λ sent.
      notices ms >>= λ failed. pure (if sent then failed else suc failed)

  abbrev pub notify_moderators : Tx ℕ
  notify_moderators = notices c.moderators >>= λ failed.
      throw_if (ltb 0 failed) Failure.moderator_notice_failed >> pure (length c.moderators)

  -- What is logged of an alert with no channel.
  abbrev pub log_attempt : SafetyAlert → Tx (Unit {0})
  log_attempt a = elim a.raised_by [ none ↦ pure tt | some user ↦ call c.log_no_channel ]

  abbrev pub deliver_to_emergency_contact : Env → ℕ → SafetyAlert → Tx Delivered
  deliver_to_emergency_contact env id a = elim c.contact [
    | Contact.unreadable ↦ mark_failed id >> throw Failure.contact_unreadable
    | Contact.absent ↦ log_attempt a >> mark_no_channel id >> pure Delivered.no_channel
    | Contact.address ↦ call c.deliver >>= λ sent.
        throw_if (not sent) Failure.emergency_delivery_failed
        >> mark_delivered env id
        >> pure Delivered.delivered
  ]

  -- Everything inside the try.
  abbrev pub deliver_legs : Env → ℕ → SafetyAlert → Tx Delivered
  deliver_legs env id a =
      file_unified_queue_entry env id >> notify_moderators >> deliver_to_emergency_contact env id a

  -- 'failed' on the last attempt of the budget, else 'retrying'.
  abbrev pub mark_delivery_failure : ℕ → ℕ → Tx (Option SafetyAlert)
  mark_delivery_failure id attempt =
      if leb c.max_attempts attempt then mark_failed id else mark_retrying id

  -- The catch: the alert is marked, and the error thrown again.
  abbrev pub mark_and_rethrow : ℕ → ℕ → Result Delivered × Db → Result Delivered × Db
  mark_and_rethrow id attempt p = elim p.0 [
    | ok d ↦ (ok d, p.1)
    | err x ↦
        if is_marked_terminal x
        then (err x, p.1)
        else (err x, (mark_delivery_failure id attempt p.1).1)
  ]

  unfoldable pub handle : Env → ℕ → ℕ → Tx Delivered
  handle env id attempt db = elim (load_for_delivery id db) [
    | none ↦ (ok Delivered.noop, db)
    | some a ↦
        if is_terminal a.delivery_status
        then (ok Delivered.noop, db)
        else mark_and_rethrow id attempt (deliver_legs env id a db)
  ]
