-- ===== src/Safety/Raising.antt =====
-- raiseAlert and escalateAlert on every branch: the alert with its job, or a refusal and nothing.
use homeplate.Base.{
  ℕ, suc, ◌≡◌, ◌≤◌, refl, true, false, none, some, ◌∷◌, arith, inl, inr, ◌⊎◌, Bool-cases,
  Option-cases,
}
use homeplate.Table.{Table}
use homeplate.Database.{
  Auth, Db, Env, Tx, ok, err, ◌>>=◌, ◌>>◌, query, some_or_throw, Booking, Listing, SafetyAlert, Job,
  JobType, Payload, DedupeKey, Failure, with_transaction_ok, with_transaction_err,
}
use homeplate.Outbox.Keys.{has_key, Extends, IsQueued, enqueue-Defers}
use homeplate.Bookings.Repo.{Role, select_booking_with_listing}
use homeplate.Bookings.Participants.{
  participant_or_throw, IsParty, IsStranger, participant-cases, find_participant_booking,
}
use homeplate.Safety.Repo.{insert_alert, new_alert}
use homeplate.Safety.Service.{persist_alert_with_job, raise_alert, escalate_alert}

-- The database with an alert more, whatever its job did to the outbox.
abbrev pub alerted_by : Env → ℕ → ℕ → Db → Table Job → ℕ → Db
alerted_by env booking user db jobs next = record db {
  safety_alerts = (db.next_id, new_alert env booking user) ∷ db.safety_alerts;
  jobs = jobs;
  next_id = next;
}

-- A call that writes the alert, with the job of its delivery in the outbox.
abbrev pub Alerts : Env → ℕ → ℕ → Tx (ℕ × SafetyAlert) → Db → Type 0
Alerts env booking user m db =
    (jobs : Table Job) × (next : ℕ) × (m db
      ≡ (ok (db.next_id, new_alert env booking user), alerted_by env booking user db jobs next))
    × (suc db.next_id ≤ next)
    × (has_key (DedupeKey.alert db.next_id) jobs ≡ true)
    × Extends
        (IsQueued (DedupeKey.alert db.next_id) JobType.safety_alert
          (Payload.alert_ref db.next_id booking) env.now)
        db.jobs jobs

persist-Alerts :
    (env : Env) (booking user : ℕ) (db : Db)
    → Alerts env booking user (persist_alert_with_job env booking user) db
unfolding persist_alert_with_job insert_alert
persist-Alerts env booking user db =
    let before : Db = record db {
      safety_alerts = (db.next_id, new_alert env booking user) ∷ db.safety_alerts;
      next_id = suc db.next_id;
    } in
    let (e, t, n, eq, le, keeps, mine) =
      enqueue-Defers
        (IsQueued (DedupeKey.alert db.next_id) JobType.safety_alert
          (Payload.alert_ref db.next_id booking) env.now)
        env JobType.safety_alert (Payload.alert_ref db.next_id booking) (DedupeKey.alert db.next_id)
        none before (refl, (refl, refl, refl, refl, refl)) in
    (t, n, ground (arith, eq), le, mine, keeps)

-- An alert is raised by a participant of the booking, in whatever state that is: pending, and
-- together with the job of its delivery. Everyone else is refused and nothing is written.
pub raise_alert_branches :
    (env : Env) (user booking : ℕ) (db : Db)
    → ((b : Booking) × (l : Listing) × (role : Role) × IsParty user booking db b l role
        × Alerts env booking user (raise_alert env user booking) db)
      ⊎ ((x : Failure) × IsStranger user booking db x
          × (raise_alert env user booking db ≡ (err x, db)))
unfolding raise_alert
raise_alert_branches env user booking db =
    let body : Tx (ℕ × SafetyAlert) =
      participant_or_throw user booking >>= λ _. persist_alert_with_job env booking user in
    elim (participant-cases user booking db) [
      | inr (x, why, ran) ↦
          let thrown : body db ≡ (err x, db) = ground arith in
          inr (x, why, with_transaction_err body thrown)
      | inl (b, l, role, is, ran) ↦
          let (jobs, next, wrote, le, queued, keeps) = persist-Alerts env booking user db in
          let done : body db ≡ (
            ok (db.next_id, new_alert env booking user),
            alerted_by env booking user db jobs next,
          ) =
            ground arith in
          inl (b, l, role, is, (jobs, next, with_transaction_ok body done, le, queued, keeps))
    ]

-- Why an escalation is refused.
abbrev pub EscalationRefused : Auth → ℕ → Db → Failure → Type 0
EscalationRefused auth booking db x =
    ((x ≡ Failure.not_moderator) × (auth.is_moderator ≡ false))
    ⊎ ((x ≡ Failure.booking_not_found)
        × (auth.is_moderator ≡ true)
        × (select_booking_with_listing booking db ≡ none))

-- A moderator raises an alert on any booking that there is, its participant or not; anyone else,
-- or one without the booking, is refused and nothing is written.
pub escalate_alert_branches :
    (env : Env) (auth : Auth) (booking : ℕ) (db : Db)
    → ((b : Booking) × (l : Listing) × (auth.is_moderator ≡ true)
        × (select_booking_with_listing booking db ≡ some (b, l))
        × Alerts env booking auth.user_id (escalate_alert env auth booking) db)
      ⊎ ((x : Failure) × EscalationRefused auth booking db x
          × (escalate_alert env auth booking db ≡ (err x, db)))
unfolding escalate_alert find_participant_booking
escalate_alert_branches env auth booking db =
    let body : Tx (ℕ × SafetyAlert) =
      query (find_participant_booking auth.user_id booking) >>= λ found.
      some_or_throw found Failure.booking_not_found
      >> persist_alert_with_job env booking auth.user_id in
    elim (Bool-cases auth.is_moderator) [
      | inr other ↦ inr (Failure.not_moderator, inl (refl, other), ground arith)
      | inl role ↦ elim (Option-cases (select_booking_with_listing booking db)) [
        | inl gone ↦
            let thrown : body db ≡ (err Failure.booking_not_found, db) = ground arith in
            inr (
              Failure.booking_not_found,
              inr (refl, role, gone),
              ground (arith, with_transaction_err body thrown),
            )
        | inr ((b, l), found) ↦
            let (jobs, next, wrote, le, queued, keeps) =
              persist-Alerts env booking auth.user_id db in
            let done : body db ≡ (
              ok (db.next_id, new_alert env booking auth.user_id),
              alerted_by env booking auth.user_id db jobs next,
            ) =
              ground arith in
            inl (
              b,
              l,
              role,
              found,
              (jobs, next, ground (arith, with_transaction_ok body done), le, queued, keeps),
            )
      ]
    ]
