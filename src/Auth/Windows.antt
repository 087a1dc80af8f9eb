-- ===== src/Auth/Windows.antt =====
-- The limits as NFR-05 states them: each counter is a window that opens with its first hit, counts
-- the hits in it, and closes a fixed time after that.
use mathlib.Core.Logic.{ite}
use homeplate.Base.{ℕ, suc, ◌+◌, ◌*◌, Bool, ◌||◌, Option, none, some, leb, ltb, if◌then◌else◌}
use homeplate.Auth.Redis.{Key, Key-discrete}
use homeplate.Auth.RateLimit.{
  Attempt, Limits, Answer, ResendAnswer, account_key, ip_key, resend_account_key, resend_ip_key,
  ip_attempt_multiplier, resend_max_attempts,
}

-- The hits of a window, and when it closes.
pub record Window : Type 0 where
  pub hits : ℕ
  pub closes : ℕ

abbrev pub Windows : Type 0
Windows = Key → Option Window

-- The window that is open at `t`.
abbrev pub open_at : ℕ → Option Window → Option Window
open_at t none = none
open_at t (some w) = if ltb t w.closes then some w else none

abbrev pub hits_at : ℕ → Option Window → ℕ
hits_at t none = 0
hits_at t (some w) = if ltb t w.closes then w.hits else 0

-- A hit: one more in the open window, or the first of a new one.
abbrev pub hit_at : ℕ → ℕ → Option Window → Window
hit_at span t none = record { hits = 1; closes = t + span }
hit_at span t (some w) =
    if ltb t w.closes
    then record w { hits = suc w.hits }
    else record { hits = 1; closes = t + span }

abbrev pub set_window : Key → Option Window → Windows → Windows
set_window k w ws j = ite (Key-discrete j k) w (ws j)

module _ (limits : Limits) where
  abbrev pub span : ℕ
  span = limits.login_window_seconds * 1000

  abbrev pub hit : Key → ℕ → Windows → Windows
  hit k t ws = set_window k (some (hit_at span t (ws k))) ws

  -- Enough hits for the account, or ten times that for the source.
  abbrev pub is_shut : Key → Key → ℕ → ℕ → Windows → Bool
  is_shut account source bound t ws =
      leb bound (hits_at t (ws account))
      || leb (bound * ip_attempt_multiplier) (hits_at t (ws source))

  unfoldable pub sign_in : Attempt → Bool → ℕ → Windows → Answer × Windows
  sign_in a valid t ws =
      if is_shut (account_key a) (ip_key a) limits.login_max_attempts t ws
      then (Answer.rate_limited, ws)
      else if valid
      then (Answer.signed_in, set_window (account_key a) none ws)
      else (Answer.invalid_credentials, hit (ip_key a) t (hit (account_key a) t ws))

  unfoldable pub ask_again : Attempt → ℕ → Windows → ResendAnswer × Windows
  ask_again a t ws =
      if is_shut (resend_account_key a) (resend_ip_key a) resend_max_attempts t ws
      then (ResendAnswer.rate_limited, ws)
      else (ResendAnswer.counted, hit (resend_ip_key a) t (hit (resend_account_key a) t ws))
