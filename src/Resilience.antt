-- ===== src/Resilience.antt =====
-- src/lib/resilience.js: withResilience, the retries around every call of an external service.
pub mod Bounds
mod Tests
use homeplate.Base.{
  ℕ, zero, suc, ◌+◌, Bool, true, false, not, ◌&&◌, ◌||◌, Option, none, some, ltb, if◌then◌else◌,
}
use homeplate.Outbox.Worker.{compute_backoff_delay}

-- How a promise settles.
pub data Settled {ℓ} (A E : Type ℓ) : Type ℓ where
  resolved : A → Settled A E
  rejected : E → Settled A E

-- One call of the operation: how it settles in the end and after how many milliseconds; none for
-- one that never does.
abbrev pub Run : (A E : Type 0) → Type 0
Run A E = Option (Settled A E × ℕ)

-- The options, with no jitter.
pub record Options (E : Type 0) : Type 0 where
  pub timeout_ms : ℕ
  pub retries : ℕ
  pub base_ms : ℕ
  pub factor : ℕ
  pub max_ms : ℕ
  pub is_retryable : E → Bool
  pub timeout_error : E

-- What the loop ends with: how the last attempt settled, its number, and the time since the start.
pub record Report (A E : Type 0) : Type 0 where
  pub outcome : Settled A E
  pub attempts : ℕ
  pub elapsed : ℕ

module _ {A E : Type 0} where
  abbrev pub later : ℕ → Option (Report A E) → Option (Report A E)
  later t none = none
  later t (some r) = some (record r { elapsed = t + r.elapsed })

  -- onFallback, where there is one, gives the result in place of the last error: it is a promise
  -- of its own, under no timer.
  abbrev pub fall_back : Option (E → Run A E) → Report A E → Option (Report A E)
  fall_back none r = some r
  fall_back (some f) r = elim r.outcome [
    | Settled.resolved a ↦ some r
    | Settled.rejected e ↦ elim (f e) [
      | none ↦ none
      | some (s, t) ↦ some (record r { outcome = s; elapsed = r.elapsed + t })
    ]
  ]

  abbrev pub on_end : Option (E → Run A E) → Option (Report A E) → Option (Report A E)
  on_end fallback none = none
  on_end fallback (some r) = fall_back fallback r

abbrev pub delay_after : {E : Type 0} → Options E → ℕ → ℕ
delay_after o attempt = compute_backoff_delay attempt o.base_ms o.factor o.max_ms

module _ {A E : Type 0} (o : Options E) where
  -- The promise with its timer: whichever comes first.
  abbrev pub with_timer : Run A E → Run A E
  with_timer none =
      if ltb 0 o.timeout_ms then some (Settled.rejected o.timeout_error, o.timeout_ms) else none
  with_timer (some (s, t)) =
      if ltb 0 o.timeout_ms && not (ltb t o.timeout_ms)
      then some (Settled.rejected o.timeout_error, o.timeout_ms)
      else some (s, t)

  -- The attempts from one on, with the retries that are left after it.
  abbrev pub attempts_from : (ℕ → Run A E) → (left attempt : ℕ) → Option (Report A E)
  attempts_from f zero attempt = elim (with_timer (f attempt)) [
    | none ↦ none
    | some (s, t) ↦ some (record { outcome = s; attempts = attempt; elapsed = t })
  ]
  attempts_from f (suc left) attempt =
      let rest = attempts_from f left (suc attempt) in
      elim (with_timer (f attempt)) [
        | none ↦ none
        | some (Settled.resolved a, t) ↦
            some (record { outcome = Settled.resolved a; attempts = attempt; elapsed = t })
        | some (Settled.rejected e, t) ↦
            if o.is_retryable e
            then later (t + delay_after o attempt) rest
            else some (record { outcome = Settled.rejected e; attempts = attempt; elapsed = t })
      ]

  -- The operation is told the number of the attempt; none stands for a call that never returns.
  unfoldable pub with_resilience :
      (ℕ → Run A E) → (fallback : Option (E → Run A E)) → Option (Report A E)
  with_resilience f fallback = on_end fallback (attempts_from f o.retries 1)
