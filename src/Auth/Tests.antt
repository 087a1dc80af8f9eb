-- ===== src/Auth/Tests.antt =====
-- The limits over a store that is a function, at concrete requests.
use mathlib.Core.Logic.{ite}
use homeplate.Base.{
  ℕ, ◌+◌, ◌*◌, ◌≤◌, ◌≡◌, ◌≢◌, refl, ap, ◌∙◌, true, false, Option, none, some, List, [], ◌∷◌, arith,
  inl, inr, ltb, Bool-cases, Option-cases,
}
use homeplate.Auth.Redis.{
  Key, Key-discrete, Entry, Redis, at_time, incremented, expiring, map_entry,
}
use homeplate.Auth.RateLimit.{Attempt, Limits, Answer}
use homeplate.Auth.Refinement.{ite-yes, ite-no}
use homeplate.Auth.Traces.{Request, Reply, replies, specified, limits_are_windows}

abbrev Entries : Type 0
Entries = Key → Option Entry

abbrev set_entry : Key → Option Entry → Entries → Entries
set_entry k e s j = ite (Key-discrete j k) e (s j)

still_there : (t t' : ℕ) (e : Option Entry) → t ≤ t' → at_time t' e ≡ at_time t' (at_time t e)
still_there t t' none le = refl
still_there t t' (some e) le = elim (Option-cases e.deadline) [
  | inl lasting ↦ ground arith
  | inr (d, ends) ↦ elim (Bool-cases (ltb t d)) [
    | inl soon ↦ ground arith
    | inr over ↦ ground arith
  ]
]

counted_on :
    (t : ℕ) (e : Option Entry)
    → at_time t (some (incremented (at_time t e))) ≡ some (incremented (at_time t e))
counted_on t none = refl
counted_on t (some e) = elim (Option-cases e.deadline) [
  | inl lasting ↦ ground arith
  | inr (d, ends) ↦ elim (Bool-cases (ltb t d)) [
    | inl soon ↦ ground arith
    | inr over ↦ ground arith
  ]
]

set_entry-same : (k : Key) (e : Option Entry) (s : Entries) → set_entry k e s k ≡ e
set_entry-same k e s = ite-yes (Key-discrete k k) e (s k) refl

set_entry-other : (j k : Key) (e : Option Entry) (s : Entries) → j ≢ k → set_entry k e s j ≡ s j
set_entry-other j k e s other = ite-no (Key-discrete j k) e (s j) other

abbrev kept : Redis
kept = record {
  Store = Entries;
  live = λ s k t. at_time t (s k);
  ttl = λ s k t. 1;
  incr = λ k t s. set_entry k (some (incremented (at_time t (s k)))) s;
  expire_nx =
      λ k seconds t s. set_entry k (map_entry (expiring (t + seconds * 1000)) (at_time t (s k))) s;
  del = λ k t s. set_entry k none s;
  live-later = λ s k t t' le. still_there t t' (s k) le;
  live-incr = λ s k t.
      ap (at_time t) (set_entry-same k (some (incremented (at_time t (s k)))) s)
      ∙ counted_on t (s k);
  live-incr_other = λ s j k t other. ap (at_time t) (set_entry-other j k _ s other);
  live-expire = λ s k seconds t. ap (at_time t) (set_entry-same k _ s);
  live-expire_other = λ s j k seconds t other. ap (at_time t) (set_entry-other j k _ s other);
  live-del = λ s k t. ap (at_time t) (set_entry-same k none s);
  live-del_other = λ s j k t other. ap (at_time t) (set_entry-other j k none s other);
}

abbrev usual : Limits
usual = record { login_max_attempts = 5; login_window_seconds = 600 }

abbrev ann : Attempt
ann = record { email_digest = 7; ip = 1 }

abbrev wrong : ℕ × Request
wrong = (1000, Request.to_login ann false)

-- Five wrong passwords, a right one within the window, and a right one behind it.
abbrev day : List (ℕ × Request)
day =
    wrong
    ∷ wrong
    ∷ wrong
    ∷ wrong
    ∷ wrong
    ∷ (1000, Request.to_login ann true)
    ∷ (600000, Request.to_login ann true)
    ∷ []

limits_are_windows_example :
    replies kept usual 0 (λ k. none) day ≡ specified kept usual 0 (λ k. none) day
limits_are_windows_example = limits_are_windows kept usual 0 (λ k. none) day (λ k. refl)

sixth_is_refused :
    specified kept usual 0 (λ k. none) day
    ≡ Reply.of_login Answer.invalid_credentials
      ∷ Reply.of_login Answer.invalid_credentials
      ∷ Reply.of_login Answer.invalid_credentials
      ∷ Reply.of_login Answer.invalid_credentials
      ∷ Reply.of_login Answer.invalid_credentials
      ∷ Reply.of_login Answer.rate_limited
      ∷ Reply.of_login Answer.signed_in
      ∷ []
unfolding homeplate.Auth.Windows.sign_in Key-discrete homeplate.Auth.Redis.Space-discrete
    native.Mathlib.Decide.ℕ_discrete
sixth_is_refused = refl
