-- ===== src/Auth/RateLimit.antt =====
-- src/modules/auth/rateLimit.js, and what login and resendVerificationEmail in service.js do around
-- it. A call runs at one instant, with no other between its check and its count. The digest of the
-- address and the check of the password are given with the attempt; the session that a success
-- opens and the mail of a resend are left out.
use homeplate.Base.{
  ℕ, ◌*◌, Bool, true, false, not, ◌&&◌, Option, none, some, List, [], ◌∷◌, leb, ltb, if◌then◌else◌,
  ◌++◌,
}
use homeplate.Auth.Redis.{Space, Key, Entry, Redis}

pub record Attempt : Type 0 where
  pub email_digest : ℕ
  pub ip : ℕ

-- config.auth
pub record Limits : Type 0 where
  pub login_max_attempts : ℕ
  pub login_window_seconds : ℕ

abbrev pub ip_attempt_multiplier : ℕ
ip_attempt_multiplier = 10

abbrev pub resend_max_attempts : ℕ
resend_max_attempts = 3

abbrev pub account_key : Attempt → Key
account_key a = record { space = Space.login_account; id = a.email_digest }

abbrev pub ip_key : Attempt → Key
ip_key a = record { space = Space.login_ip; id = a.ip }

abbrev pub resend_account_key : Attempt → Key
resend_account_key a = record { space = Space.resend_account; id = a.email_digest }

abbrev pub resend_ip_key : Attempt → Key
resend_ip_key a = record { space = Space.resend_ip; id = a.ip }

-- Number(raw) || 0
abbrev pub value_or_zero : Option Entry → ℕ
value_or_zero none = 0
value_or_zero (some e) = e.value

pub record Gate : Type 0 where
  pub limited : Bool
  pub retry_after_seconds : Option ℕ

abbrev pub key_if : Bool → Key → List Key
key_if c k = if c then k ∷ [] else []

module _ (r : Redis) (limits : Limits) where
  open r use {Store, live, ttl, incr, expire_nx, del}

  -- The greatest of the answers, on top of `best`.
  abbrev pub longest : Store → ℕ → List Key → ℕ → ℕ
  longest s t [] best = best
  longest s t (k ∷ ks) best = longest s t ks (if ltb best (ttl s k t) then ttl s k t else best)

  abbrev pub longest_ttl : Store → ℕ → List Key → ℕ
  longest_ttl s t ks =
      let best = longest s t ks 0 in if ltb 0 best then best else limits.login_window_seconds

  -- The two counters against their bounds.
  abbrev pub gate_of : Store → ℕ → Key → Key → ℕ → Gate
  gate_of s t account source bound =
      let account_limited = leb bound (value_or_zero (live s account t)) in
      let ip_limited = leb (bound * ip_attempt_multiplier) (value_or_zero (live s source t)) in
      if not account_limited && not ip_limited
      then record { limited = false; retry_after_seconds = none }
      else record {
        limited = true;
        retry_after_seconds =
            some (longest_ttl s t (key_if account_limited account ++ key_if ip_limited source));
      }

  unfoldable pub check : Attempt → ℕ → Store → Gate
  check a t s = gate_of s t (account_key a) (ip_key a) limits.login_max_attempts

  -- INCR and EXPIRE NX of both counters, in one MULTI.
  abbrev pub count_both : Key → Key → ℕ → Store → Store
  count_both account source t s =
      expire_nx source limits.login_window_seconds t
        (incr source t (expire_nx account limits.login_window_seconds t (incr account t s)))

  unfoldable pub record_failure : Attempt → ℕ → Store → Store
  record_failure a = count_both (account_key a) (ip_key a)

  unfoldable pub reset_account : Attempt → ℕ → Store → Store
  reset_account a = del (account_key a)

  unfoldable pub check_resend : Attempt → ℕ → Store → Gate
  check_resend a t s = gate_of s t (resend_account_key a) (resend_ip_key a) resend_max_attempts

  unfoldable pub record_resend : Attempt → ℕ → Store → Store
  record_resend a = count_both (resend_account_key a) (resend_ip_key a)

-- What a login answers: 429, 401 or a session.
pub data Answer : Type 0 where
  rate_limited invalid_credentials signed_in : Answer

-- What a request for a verification mail does: 429, or the request is counted.
pub data ResendAnswer : Type 0 where
  rate_limited counted : ResendAnswer

module _ (r : Redis) (limits : Limits) where
  open r use {Store}

  unfoldable pub login : Attempt → (valid : Bool) → ℕ → Store → Answer × Store
  login a valid t s =
      if (check r limits a t s).limited
      then (Answer.rate_limited, s)
      else if valid
      then (Answer.signed_in, reset_account r limits a t s)
      else (Answer.invalid_credentials, record_failure r limits a t s)

  unfoldable pub request_resend : Attempt → ℕ → Store → ResendAnswer × Store
  request_resend a t s =
      if (check_resend r limits a t s).limited
      then (ResendAnswer.rate_limited, s)
      else (ResendAnswer.counted, record_resend r limits a t s)
