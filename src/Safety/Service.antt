-- ===== src/Safety/Service.antt =====
-- src/modules/safety/service.js: raiseAlert and escalateAlert.
use homeplate.Base.{ℕ, none, some, not}
use homeplate.Database.{
  Auth, Env, Tx, ◌>>=◌, ◌>>◌, pure, throw_if, query, some_or_throw, with_transaction, SafetyAlert,
  JobType, Payload, DedupeKey, Failure,
}
use homeplate.Outbox.Enqueue.{enqueue}
use homeplate.Bookings.Participants.{participant_or_throw, find_participant_booking}
use homeplate.Safety.Repo.{insert_alert}

-- persistAlertWithJob
unfoldable pub persist_alert_with_job : Env → ℕ → ℕ → Tx (ℕ × SafetyAlert)
persist_alert_with_job env booking raised_by = insert_alert env booking raised_by >>= λ alert.
    enqueue env JobType.safety_alert (Payload.alert_ref alert.0 booking)
      (some (DedupeKey.alert alert.0)) none
    >> pure alert

unfoldable pub raise_alert : Env → ℕ → ℕ → Tx (ℕ × SafetyAlert)
raise_alert env user booking =
    with_transaction
      (participant_or_throw user booking >>= λ _. persist_alert_with_job env booking user)

-- A moderator need not be a participant.
unfoldable pub escalate_alert : Env → Auth → ℕ → Tx (ℕ × SafetyAlert)
escalate_alert env auth booking =
    throw_if (not auth.is_moderator) Failure.not_moderator
    >> with_transaction (
        query (find_participant_booking auth.user_id booking) >>= λ found.
        some_or_throw found Failure.booking_not_found
        >> persist_alert_with_job env booking auth.user_id)
