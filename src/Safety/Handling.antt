-- ===== src/Safety/Handling.antt =====
-- The delivery of an alert: what state each of its ends leaves the alert in.
use mathlib.Core.Path.{subst}
use homeplate.Base.{
  ℕ, suc, ◌≤◌, ◌≡◌, ◌≢◌, refl, sym, ap, ◌∙◌, true, false, none, some, List, [], ◌∷◌, arith, inl,
  inr, ◌⊎◌, Option-cases, Bool-cases, ==_refl, leb, ltb, if◌then◌else◌, length, is_some,
}
use homeplate.Table.{lookup, modify}
use homeplate.Table.Laws.{lookup-modify}
use homeplate.Database.{
  Db, Env, Tx, Result, Result-cases, ok, err, SafetyAlert, DeliveryStatus, ContentType, QueueReason,
  Failure,
}
use homeplate.Moderation.Repo.{find_open}
use homeplate.Moderation.Writing.{filed, insert_queue_item_ok}
use homeplate.Safety.Repo.{
  load_for_delivery, mark_delivered, mark_retrying, mark_failed, mark_no_channel,
  file_unified_queue_entry, with_delivery, delivered_now, is_delivered,
}
use homeplate.Safety.Delivery.{
  Channels, Delivered, notices, notify_moderators, log_attempt, deliver_to_emergency_contact,
  deliver_legs, is_marked_terminal, mark_and_rethrow, is_terminal, handle,
}
use homeplate.Safety.Marks.{
  mark_ok, Contact-cases, filed_alert, loaded-lookup, open-live, terminal-eq,
}

-- What the services throw, which is never the code of the unreadable contact.
pub record IsForeign (c : Channels) : Type 0 where
  pub of_notice : (m : ℕ) → c.notify m ≢ err Failure.contact_unreadable
  pub of_delivery : c.deliver ≢ err Failure.contact_unreadable
  pub of_log : c.log_no_channel ≢ err Failure.contact_unreadable

module _ (c : Channels) (foreign : IsForeign c) where
  -- A part that writes nothing, and throws no code of the unreadable contact.
  abbrev Passes : {A : Type 0} → Tx A → Db → Type 0
  Passes {A} m db =
      ((a : A) × (m db ≡ (ok a, db)))
      ⊎ ((x : Failure) × (m db ≡ (err x, db)) × (x ≢ Failure.contact_unreadable))

  notices-Passes : (ms : List ℕ) (db : Db) → Passes (notices c ms) db
  notices-Passes [] db = inl (0, refl)
  notices-Passes (m ∷ ms) db = elim (Result-cases (c.notify m, db)) [
    | inr (x, d, e) ↦ inr (x, ground arith, λ is. foreign.of_notice m (ground arith))
    | inl (sent, d, e) ↦
        let said : c.notify m ≡ ok sent = ground arith in
        elim (notices-Passes ms db) [
          | inl (n, rest) ↦ inl (if sent then n else suc n, ground arith)
          | inr (x, rest, other) ↦ inr (x, ground arith, other)
        ]
  ]

  notify_moderators-Passes : (db : Db) → Passes (notify_moderators c) db
  notify_moderators-Passes db = elim (notices-Passes c.moderators db) [
    | inr (x, e, other) ↦ inr (x, ground arith, other)
    | inl (n, e) ↦ elim (Bool-cases (ltb 0 n)) [
      | inl some_failed ↦
          inr (Failure.moderator_notice_failed, ground arith, λ is. absurd (ground arith))
      | inr all_sent ↦ inl (length c.moderators, ground arith)
    ]
  ]

  log_attempt-Passes : (a : SafetyAlert) (db : Db) → Passes (log_attempt c a) db
  log_attempt-Passes a db = elim (Option-cases a.raised_by) [
    | inl nobody ↦ inl (tt, ground arith)
    | inr (user, is) ↦ elim (Result-cases (c.log_no_channel, db)) [
      | inl (u, d, e) ↦ inl (u, ground arith)
      | inr (x, d, e) ↦ inr (x, ground arith, λ is. foreign.of_log (ground arith))
    ]
  ]

  -- The database with the alert rewritten.
  abbrev pub marked : (SafetyAlert → SafetyAlert) → ℕ → Db → Db
  marked f id db = record db { safety_alerts = modify id f db.safety_alerts }

  -- The ends of the legs on an alert that is not delivered: a mark, or a throw before one.
  abbrev Ends : Env → ℕ → SafetyAlert → Tx Delivered → Db → Type 0
  Ends env id a m db =
      (m db ≡ (ok Delivered.delivered, marked (delivered_now env) id db))
      ⊎ ((m db ≡ (ok Delivered.no_channel, marked (with_delivery DeliveryStatus.no_channel) id db))
          ⊎ ((m db ≡ (
            err Failure.contact_unreadable,
            marked (with_delivery DeliveryStatus.failed) id db,
          ))
              ⊎ ((x : Failure) × (m db ≡ (err x, db)) × (x ≢ Failure.contact_unreadable))))

  contact-Ends :
      (env : Env) (id : ℕ) (a b : SafetyAlert) (db : Db)
      → lookup id db.safety_alerts ≡ some b
      → is_delivered b.delivery_status ≡ false
      → Ends env id a (deliver_to_emergency_contact c env id a) db
  unfolding mark_delivered mark_failed mark_no_channel
  contact-Ends env id a b db found live = elim (Contact-cases c.contact) [
    | inl lost ↦
        inr (
          inr
            (inl (ground (arith, mark_ok (with_delivery DeliveryStatus.failed) id db found live))))
    | inr (inl empty) ↦ elim (log_attempt-Passes a db) [
      | inl (u, e) ↦ inr (
          inl
            (ground (arith, e, mark_ok (with_delivery DeliveryStatus.no_channel) id db found live)))
      | inr (x, e, other) ↦ inr (inr (inr (x, ground arith, other)))
    ]
    | inr (inr known) ↦ elim (Result-cases (c.deliver, db)) [
      | inr (x, d, e) ↦ inr (inr (inr (x, ground arith, λ is. foreign.of_delivery (ground arith))))
      | inl (sent, d, e) ↦
          let said : c.deliver ≡ ok sent = ground arith in
          elim (Bool-cases sent) [
            | inl yes_ ↦ inl (ground (arith, mark_ok (delivered_now env) id db found live))
            | inr no_ ↦ inr (
                inr (
                  inr
                    (Failure.emergency_delivery_failed, ground arith, λ is. absurd (ground arith))))
          ]
    ]
  ]

  legs-Ends :
      (env : Env) (id : ℕ) (a : SafetyAlert) (db : Db)
      → lookup id db.safety_alerts ≡ some a
      → is_delivered a.delivery_status ≡ false
      → let after = filed env ContentType.safety_alert id QueueReason.safety_alert none db in
        Ends env id a (λ _. deliver_legs c env id a db) after
  unfolding file_unified_queue_entry
  legs-Ends env id a db found live =
      let after = filed env ContentType.safety_alert id QueueReason.safety_alert none db in
      let (created, ran) =
        insert_queue_item_ok env ContentType.safety_alert id QueueReason.safety_alert none db in
      let (alerts, _, _) = filed_alert env id db in
      elim (notify_moderators-Passes after) [
        | inr (x, e, other) ↦ inr (inr (inr (x, ground arith, other)))
        | inl (n, e) ↦ elim (contact-Ends env id a a after (ap (lookup id) alerts ∙ found) live) [
          | inl done ↦ inl (ground arith)
          | inr (inl quiet) ↦ inr (inl (ground arith))
          | inr (inr (inl lost)) ↦ inr (inr (inl (ground arith)))
          | inr (inr (inr (x, thrown, other))) ↦ inr (inr (inr (x, ground arith, other)))
        ]
      ]

  -- The state that the alert is left in, by what the handler returns.
  abbrev pub IsMarked : ℕ → Result Delivered → DeliveryStatus → Type 0
  IsMarked attempt r s =
      ((r ≡ ok Delivered.delivered) × (s ≡ DeliveryStatus.delivered))
      ⊎ (((r ≡ ok Delivered.no_channel) × (s ≡ DeliveryStatus.no_channel))
          ⊎ ((x : Failure) × (r ≡ err x)
              × (((s ≡ DeliveryStatus.failed)
                    × ((x ≡ Failure.contact_unreadable) ⊎ (c.max_attempts ≤ attempt)))
                  ⊎ ((s ≡ DeliveryStatus.retrying) × (suc attempt ≤ c.max_attempts)))))

  marked-status :
      (f : SafetyAlert → SafetyAlert) (id : ℕ) (db : Db) {a : SafetyAlert}
      → lookup id db.safety_alerts ≡ some a
      → lookup id (marked f id db).safety_alerts ≡ some (f a)
  marked-status f id db found = ground (arith, lookup-modify id id f db.safety_alerts, ==_refl id)

  failure_marked :
      (id attempt : ℕ) (db : Db) (x : Failure) {a : SafetyAlert}
      → lookup id db.safety_alerts ≡ some a
      → is_delivered a.delivery_status ≡ false
      → x ≢ Failure.contact_unreadable
      → (s : DeliveryStatus) × (mark_and_rethrow c id attempt (err x, db)
          ≡ (err x, marked (with_delivery s) id db))
        × IsMarked attempt (err x) s
  unfolding mark_failed mark_retrying
  failure_marked id attempt db x found live other = elim (Bool-cases (is_marked_terminal x)) [
    | inl its ↦ absurd (other (terminal-eq x its))
    | inr open_ ↦ elim (Bool-cases (leb c.max_attempts attempt)) [
      | inl last ↦ (
        DeliveryStatus.failed,
        ground (arith, mark_ok (with_delivery DeliveryStatus.failed) id db found live),
        inr (inr (x, refl, inl (refl, inr (ground arith)))),
      )
      | inr more ↦ (
        DeliveryStatus.retrying,
        ground (arith, mark_ok (with_delivery DeliveryStatus.retrying) id db found live),
        inr (inr (x, refl, inr (refl, ground arith))),
      )
    ]
  ]

  -- An open item for the alert, and a state that fits what was returned.
  abbrev pub AlertLeft : ℕ → ℕ → Result Delivered × Db → Type 0
  AlertLeft id attempt p =
      ((b : SafetyAlert) × (lookup id p.1.safety_alerts ≡ some b)
        × IsMarked attempt p.0 b.delivery_status)
      × (is_some (find_open ContentType.safety_alert id p.1.queue) ≡ true)

  -- Whatever becomes of the delivery of an alert that is neither delivered nor without a channel,
  -- given that the services never throw the code of the unreadable contact: there is an open item
  -- of the queue for the alert, and the alert is delivered, without a channel, failed (on the last
  -- attempt or with an unreadable contact) or retrying (before it), as the handler returned.
  pub handle_marks :
      (env : Env) (id attempt : ℕ) (db : Db) (a : SafetyAlert)
      → load_for_delivery id db ≡ some a
      → is_terminal a.delivery_status ≡ false
      → let (r, after) = handle c env id attempt db in
        ((b : SafetyAlert) × (lookup id after.safety_alerts ≡ some b)
          × IsMarked attempt r b.delivery_status)
        × (is_some (find_open ContentType.safety_alert id after.queue) ≡ true)
  unfolding handle
  handle_marks env id attempt db a loaded open_ =
      let found = loaded-lookup id db loaded in
      let live = open-live a.delivery_status open_ in
      let mid = filed env ContentType.safety_alert id QueueReason.safety_alert none db in
      let (alerts, _, queued) = filed_alert env id db in
      let there = ap (lookup id) alerts ∙ found in
      let left_by : (f : SafetyAlert → SafetyAlert) (r : Result Delivered)
          → handle c env id attempt db ≡ (r, marked f id mid)
          → IsMarked attempt r (f a).delivery_status
          → AlertLeft id attempt (handle c env id attempt db) =
        λ f r ran is.
          subst (AlertLeft id attempt) (sym ran)
            ((f a, marked-status f id mid there, is), queued) in
      elim (legs-Ends env id a db found live) [
        | inl done ↦
            left_by (delivered_now env) (ok Delivered.delivered) (ground arith) (inl (refl, refl))
        | inr (inl quiet) ↦
            left_by (with_delivery DeliveryStatus.no_channel) (ok Delivered.no_channel)
              (ground arith) (inr (inl (refl, refl)))
        | inr (inr (inl lost)) ↦
            left_by (with_delivery DeliveryStatus.failed) (err Failure.contact_unreadable)
              (ground arith) (inr (inr (Failure.contact_unreadable, refl, inl (refl, inl refl))))
        | inr (inr (inr (x, thrown, other))) ↦
            let (s, ran, is) = failure_marked id attempt mid x there live other in
            left_by (with_delivery s) (err x) (ground arith) is
      ]
