-- ===== src/Safety/Repo.antt =====
-- src/modules/safety/repo.js: the alerts, the states of their delivery and their queue items.
use homeplate.Base.{ℕ, suc, Bool, true, false, not, Option, none, some, ◌∷◌}
use homeplate.Table.{lookup, update_where}
use homeplate.Database.{Db, Env, Tx, ok, SafetyAlert, DeliveryStatus, ContentType, QueueReason}
use homeplate.Moderation.Repo.{insert_queue_item}

abbrev pub new_alert : Env → ℕ → ℕ → SafetyAlert
new_alert env booking raised_by = record {
  booking_id = booking;
  raised_by = some raised_by;
  delivery_status = DeliveryStatus.pending;
  delivered_at = none;
  created_at = env.now;
}

unfoldable pub insert_alert : Env → ℕ → ℕ → Tx (ℕ × SafetyAlert)
insert_alert env booking raised_by db =
    let a = new_alert env booking raised_by in
    (
      ok (db.next_id, a),
      record db { safety_alerts = (db.next_id, a) ∷ db.safety_alerts; next_id = suc db.next_id },
    )

-- The alert, joined with its booking.
unfoldable pub load_for_delivery : ℕ → Db → Option SafetyAlert
load_for_delivery id db = elim (lookup id db.safety_alerts) [
  | none ↦ none
  | some a ↦ elim (lookup a.booking_id db.bookings) [ none ↦ none | some b ↦ some a ]
]

abbrev pub is_delivered : DeliveryStatus → Bool
is_delivered DeliveryStatus.delivered = true
is_delivered _ = false

-- UPDATE … WHERE id = $1 AND delivery_status <> 'delivered'
abbrev pub mark : (SafetyAlert → SafetyAlert) → ℕ → Tx (Option SafetyAlert)
mark f id db =
    let (row, alerts) =
      update_where id (λ (a : SafetyAlert). not (is_delivered a.delivery_status)) f
        db.safety_alerts in
    (ok row, record db { safety_alerts = alerts })

abbrev pub with_delivery : DeliveryStatus → SafetyAlert → SafetyAlert
with_delivery s a = record a { delivery_status = s }

abbrev pub delivered_now : Env → SafetyAlert → SafetyAlert
delivered_now env a = record a {
  delivery_status = DeliveryStatus.delivered;
  delivered_at = some env.now;
}

unfoldable pub mark_delivered : Env → ℕ → Tx (Option SafetyAlert)
mark_delivered env = mark (delivered_now env)

unfoldable pub mark_retrying : ℕ → Tx (Option SafetyAlert)
mark_retrying = mark (with_delivery DeliveryStatus.retrying)

unfoldable pub mark_failed : ℕ → Tx (Option SafetyAlert)
mark_failed = mark (with_delivery DeliveryStatus.failed)

unfoldable pub mark_no_channel : ℕ → Tx (Option SafetyAlert)
mark_no_channel = mark (with_delivery DeliveryStatus.no_channel)

-- The statements of moderation's insertQueueItem, with no decision.
unfoldable pub file_unified_queue_entry : Env → ℕ → Tx (ℕ × Bool)
file_unified_queue_entry env alert =
    insert_queue_item env ContentType.safety_alert alert QueueReason.safety_alert none
