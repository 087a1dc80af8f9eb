-- ===== src/Safety/Marks.antt =====
-- The marks on an alert, and the item that its delivery files.
use homeplate.Base.{
  ℕ, ◌≡◌, refl, true, false, none, some, arith, inl, inr, ◌⊎◌, Option-cases, ==_refl, is_some,
}
use homeplate.Table.{lookup, modify}
use homeplate.Database.{Db, Env, ok, SafetyAlert, DeliveryStatus, ContentType, QueueReason, Failure}
use homeplate.Moderation.Repo.{find_open}
use homeplate.Moderation.Writing.{filed}
use homeplate.Safety.Repo.{load_for_delivery, mark, is_delivered}
use homeplate.Safety.Delivery.{Contact, is_marked_terminal, is_terminal}

pub mark_ok :
    (f : SafetyAlert → SafetyAlert) (id : ℕ) (db : Db) {a : SafetyAlert}
    → lookup id db.safety_alerts ≡ some a
    → is_delivered a.delivery_status ≡ false
    → mark f id db ≡ (ok (some (f a)), record db { safety_alerts = modify id f db.safety_alerts })
mark_ok f id db found live = ground arith

pub Contact-cases :
    (k : Contact) → (k ≡ Contact.unreadable) ⊎ ((k ≡ Contact.absent) ⊎ (k ≡ Contact.address))
Contact-cases Contact.unreadable = inl refl
Contact-cases Contact.absent = inr (inl refl)
Contact-cases Contact.address = inr (inr refl)

-- A filed item leaves the alerts and the bookings, and is there.
pub filed_alert :
    (env : Env) (id : ℕ) (db : Db)
    → let after = filed env ContentType.safety_alert id QueueReason.safety_alert none db in
      (after.safety_alerts ≡ db.safety_alerts)
      × (after.bookings ≡ db.bookings)
      × (is_some (find_open ContentType.safety_alert id after.queue) ≡ true)
filed_alert env id db = elim (Option-cases (find_open ContentType.safety_alert id db.queue)) [
  | inl free ↦ (ground arith, ground arith, ground (arith, ==_refl id))
  | inr (row, open_) ↦ (ground arith, ground arith, ground arith)
]

pub loaded-lookup :
    (id : ℕ) (db : Db) {a : SafetyAlert}
    → load_for_delivery id db ≡ some a
    → lookup id db.safety_alerts ≡ some a
unfolding load_for_delivery
loaded-lookup id db e = elim (Option-cases (lookup id db.safety_alerts)) [
  | inl gone ↦ absurd (ground arith)
  | inr (b, found) ↦ elim (Option-cases (lookup b.booking_id db.bookings)) [
    | inl gone ↦ absurd (ground arith)
    | inr (k, there) ↦ ground arith
  ]
]

pub open-live : (s : DeliveryStatus) → is_terminal s ≡ false → is_delivered s ≡ false
open-live DeliveryStatus.pending h = refl
open-live DeliveryStatus.retrying h = refl
open-live DeliveryStatus.delivered h = h
open-live DeliveryStatus.failed h = refl
open-live DeliveryStatus.no_channel h = refl

pub terminal-eq : (x : Failure) → is_marked_terminal x ≡ true → x ≡ Failure.contact_unreadable
terminal-eq Failure.contact_unreadable h = refl
terminal-eq _ h = absurd (ground arith)
