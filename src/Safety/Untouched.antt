-- ===== src/Safety/Untouched.antt =====
-- The delivery of an alert (src/outbox/handlers/safetyAlert.js) writes no row of the outbox.
use mathlib.Core.Path.{subst}
use homeplate.Base.{
  if◌then◌else◌, ℕ, ◌≡◌, refl, ap, ◌∙◌, Bool, true, false, List, [], ◌∷◌, arith, inl, inr,
  Option-cases, Bool-cases, ltb, leb, length, suc,
}
use homeplate.Database.{
  Db, Env, Tx, Result, Result-cases, ok, err, ◌>>=◌, ◌>>◌, >>=_ok, >>=_err, pure, throw_if,
  SafetyAlert, ContentType, Failure,
}
use homeplate.Moderation.Repo.{find_open, insert_queue_item}
use homeplate.Safety.Repo.{
  load_for_delivery, mark_delivered, mark_retrying, mark_failed, mark_no_channel,
  file_unified_queue_entry,
}
use homeplate.Safety.Delivery.{
  Channels, Contact, Delivered, call, notices, notify_moderators, log_attempt,
  deliver_to_emergency_contact, deliver_legs, is_marked_terminal, mark_delivery_failure,
  mark_and_rethrow, is_terminal, handle,
}

-- Whatever comes of the call, the outbox is as it was.
abbrev KeepsJobs : {A : Type 0} → Tx A → Type 0
KeepsJobs m = (db : Db) → (m db).1.jobs ≡ db.jobs

bind-KeepsJobs :
    {A B : Type 0} (m : Tx A) (f : A → Tx B)
    → KeepsJobs m
    → ((a : A) → KeepsJobs (f a))
    → KeepsJobs (m >>= f)
bind-KeepsJobs {A} m f first rest db = elim (Result-cases (m db)) [
  | inl (a, mid, e) ↦
      ap (λ p. p.1.jobs) (>>=_ok m f e)
      ∙ rest a mid
      ∙ subst (λ (p : Result A × Db). p.1.jobs ≡ db.jobs) e (first db)
  | inr (x, mid, e) ↦
      ap (λ p. p.1.jobs) (>>=_err m f e)
      ∙ subst (λ (p : Result A × Db). p.1.jobs ≡ db.jobs) e (first db)
]

throw_if-KeepsJobs : (b : Bool) (x : Failure) → KeepsJobs (throw_if b x)
throw_if-KeepsJobs true x db = refl
throw_if-KeepsJobs false x db = refl

file-KeepsJobs : (env : Env) (id : ℕ) → KeepsJobs (file_unified_queue_entry env id)
unfolding file_unified_queue_entry insert_queue_item
file-KeepsJobs env id db = elim (Option-cases (find_open ContentType.safety_alert id db.queue)) [
  | inl fresh ↦ ground (arith, fresh)
  | inr (row, old) ↦ ground (arith, old)
]

module _ (c : Channels) where
  notices-KeepsJobs : (ms : List ℕ) → KeepsJobs (notices c ms)
  notices-KeepsJobs [] = λ db. refl
  notices-KeepsJobs (m ∷ ms) =
      bind-KeepsJobs (call (c.notify m))
        (λ sent. notices c ms >>= λ failed. pure (if sent then failed else suc failed)) (λ db. refl)
        λ sent.
          bind-KeepsJobs (notices c ms) (λ failed. pure (if sent then failed else suc failed))
            (notices-KeepsJobs ms) (λ failed db. refl)

  notify-KeepsJobs : KeepsJobs (notify_moderators c)
  notify-KeepsJobs =
      bind-KeepsJobs (notices c c.moderators)
        (λ failed.
          throw_if (ltb 0 failed) Failure.moderator_notice_failed >> pure (length c.moderators))
        (notices-KeepsJobs c.moderators)
        λ failed.
          bind-KeepsJobs (throw_if (ltb 0 failed) Failure.moderator_notice_failed)
            (λ _. pure (length c.moderators))
            (throw_if-KeepsJobs (ltb 0 failed) Failure.moderator_notice_failed) (λ _ db. refl)

  log-KeepsJobs : (a : SafetyAlert) → KeepsJobs (log_attempt c a)
  log-KeepsJobs a db = elim (Option-cases a.raised_by) [
    | inl nobody ↦ ground (arith, nobody)
    | inr (user, there) ↦ ground (arith, there)
  ]

  contact-KeepsJobs :
      (env : Env) (id : ℕ) (a : SafetyAlert) → KeepsJobs (deliver_to_emergency_contact c env id a)
  unfolding mark_failed mark_no_channel mark_delivered
  contact-KeepsJobs env id a db = go c.contact refl
    where
      go :
          (k : Contact)
          → c.contact ≡ k
          → (deliver_to_emergency_contact c env id a db).1.jobs ≡ db.jobs
      go Contact.unreadable e = ground (arith, e)
      go Contact.absent e = ground (arith, e, log-KeepsJobs a db)
      go Contact.address e = ground (arith, e)

  failure-KeepsJobs : (id attempt : ℕ) → KeepsJobs (mark_delivery_failure c id attempt)
  unfolding mark_failed mark_retrying
  failure-KeepsJobs id attempt db = elim (Bool-cases (leb c.max_attempts attempt)) [
    | inl spent ↦ ground (arith, spent)
    | inr left ↦ ground (arith, left)
  ]

  legs-KeepsJobs : (env : Env) (id : ℕ) (a : SafetyAlert) → KeepsJobs (deliver_legs c env id a)
  legs-KeepsJobs env id a =
      bind-KeepsJobs (file_unified_queue_entry env id >> notify_moderators c)
        (λ _. deliver_to_emergency_contact c env id a)
        (bind-KeepsJobs (file_unified_queue_entry env id) (λ _. notify_moderators c)
          (file-KeepsJobs env id) (λ _. notify-KeepsJobs))
        (λ _. contact-KeepsJobs env id a)

  rethrow-KeepsJobs :
      (id attempt : ℕ) (p : Result Delivered × Db)
      → (mark_and_rethrow c id attempt p).1.jobs ≡ p.1.jobs
  rethrow-KeepsJobs id attempt (ok d, db) = refl
  rethrow-KeepsJobs id attempt (err x, db) = elim (Bool-cases (is_marked_terminal x)) [
    | inl terminal ↦ ground (arith, terminal)
    | inr other ↦ ground (arith, other, failure-KeepsJobs id attempt db)
  ]

  pub handle-KeepsJobs :
      (env : Env) (id attempt : ℕ) (db : Db) → (handle c env id attempt db).1.jobs ≡ db.jobs
  unfolding handle
  handle-KeepsJobs env id attempt db = elim (Option-cases (load_for_delivery id db)) [
    | inl missing ↦ ground (arith, missing)
    | inr (a, there) ↦ elim (Bool-cases (is_terminal a.delivery_status)) [
      | inl over ↦ ground (arith, there, over)
      | inr open_ ↦ ground (
        arith,
        there,
        open_,
        legs-KeepsJobs env id a db,
        rethrow-KeepsJobs id attempt (deliver_legs c env id a db),
      )
    ]
  ]
