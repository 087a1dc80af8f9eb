-- ===== src/Auth/Refinement.antt =====
-- The limits over Redis behave as windows: the same answers to every sequence of calls.
use mathlib.Core.Logic.{ite}
use mathlib.Core.Path.{subst}
use homeplate.Base.{
  ℕ, ◌+◌, ◌≤◌, ◌≡◌, ◌≢◌, refl, sym, ap, ◌∙◌, Bool, Option, none, some, arith, inl, inr, Bool-cases,
  leb, ltb,
}
use homeplate.Auth.Redis.{
  Key, Key-discrete, Entry, Redis, at_time, incremented, expiring, map_entry,
}
use homeplate.Auth.RateLimit.{
  Attempt, Limits, Answer, ResendAnswer, value_or_zero, gate_of, check, record_failure,
  reset_account, check_resend, record_resend, login, request_resend, account_key, ip_key,
  resend_account_key, resend_ip_key, resend_max_attempts,
}
use homeplate.Auth.Windows.{
  Window, Windows, open_at, hits_at, hit_at, set_window, span, hit, is_shut, sign_in, ask_again,
}

-- The entry that holds a window.
abbrev pub held : Option Window → Option Entry
held none = none
held (some w) = some (record { value = w.hits; deadline = some w.closes })

held-later :
    (t t' : ℕ) (w : Option Window) → t ≤ t' → at_time t' (held (open_at t w)) ≡ held (open_at t' w)
held-later t t' none le = refl
held-later t t' (some w) le = elim (Bool-cases (ltb t w.closes)) [
  | inl open_ ↦ ground arith
  | inr shut ↦ ground arith
]

held-hit :
    (span t : ℕ) (w : Option Window)
    → at_time t (some (expiring (t + span) (incremented (held (open_at t w)))))
      ≡ held (open_at t (some (hit_at span t w)))
held-hit span t none = ground arith
held-hit span t (some w) = elim (Bool-cases (ltb t w.closes)) [
  | inl open_ ↦ ground arith
  | inr shut ↦ ground arith
]

pub ite-yes : {P A : Type 0} (d : Dec P) (a b : A) → P → ite d a b ≡ a
ite-yes (yes p) a b h = refl
ite-yes (no n) a b h = absurd (n h)

pub ite-no : {P A : Type 0} (d : Dec P) (a b : A) → ¬ P → ite d a b ≡ b
ite-no (yes p) a b h = absurd (h p)
ite-no (no n) a b h = refl

set_window-same : (k : Key) (w : Option Window) (ws : Windows) → set_window k w ws k ≡ w
set_window-same k w ws = ite-yes (Key-discrete k k) w (ws k) refl

set_window-other :
    (j k : Key) (w : Option Window) (ws : Windows) → j ≢ k → set_window k w ws j ≡ ws j
set_window-other j k w ws other = ite-no (Key-discrete j k) w (ws j) other

value-held : (t : ℕ) (w : Option Window) → value_or_zero (held (open_at t w)) ≡ hits_at t w
value-held t none = refl
value-held t (some w) = ground arith

module _ (r : Redis) (limits : Limits) where
  open r use {
    Store, live, incr, expire_nx, del, live-later, live-incr, live-incr_other, live-expire,
    live-expire_other, live-del, live-del_other,
  }

  -- A store holds the windows that are open at `t`, and nothing else.
  abbrev pub Holds : Store → Windows → ℕ → Type 0
  Holds s ws t = (k : Key) → live s k t ≡ held (open_at t (ws k))

  pub Holds-later : (s : Store) (ws : Windows) (t t' : ℕ) → t ≤ t' → Holds s ws t → Holds s ws t'
  Holds-later s ws t t' le h k =
      live-later s k t t' le ∙ ap (at_time t') (h k) ∙ held-later t t' (ws k) le

  Holds-hit_same :
      (k : Key) (s : Store) (ws : Windows) (t : ℕ)
      → Holds s ws t
      → live (expire_nx k limits.login_window_seconds t (incr k t s)) k t
        ≡ held (open_at t (hit limits k t ws k))
  Holds-hit_same k s ws t h =
      live-expire (incr k t s) k limits.login_window_seconds t
      ∙ ap (λ e. at_time t (map_entry (expiring (t + span limits)) e))
          (live-incr s k t ∙ ap (λ e. some (incremented e)) (h k))
      ∙ held-hit (span limits) t (ws k)
      ∙ ap (λ w. held (open_at t w))
          (sym (set_window-same k (some (hit_at (span limits) t (ws k))) ws))

  Holds-hit :
      (k : Key) (s : Store) (ws : Windows) (t : ℕ)
      → Holds s ws t
      → Holds (expire_nx k limits.login_window_seconds t (incr k t s)) (hit limits k t ws) t
  Holds-hit k s ws t h j = elim (Key-discrete j k) [
    | yes same ↦
        subst
          (λ i.
            live (expire_nx k limits.login_window_seconds t (incr k t s)) i t
            ≡ held (open_at t (hit limits k t ws i)))
          (sym same) (Holds-hit_same k s ws t h)
    | no other ↦
        live-expire_other (incr k t s) j k limits.login_window_seconds t other
        ∙ live-incr_other s j k t other
        ∙ h j
        ∙ ap (λ w. held (open_at t w))
            (sym (set_window-other j k (some (hit_at (span limits) t (ws k))) ws other))
  ]

  Holds-del :
      (k : Key) (s : Store) (ws : Windows) (t : ℕ)
      → Holds s ws t
      → Holds (del k t s) (set_window k none ws) t
  Holds-del k s ws t h j = elim (Key-discrete j k) [
    | yes same ↦
        subst (λ i. live (del k t s) i t ≡ held (open_at t (set_window k none ws i))) (sym same)
          (live-del s k t ∙ ap (λ w. held (open_at t w)) (sym (set_window-same k none ws)))
    | no other ↦
        live-del_other s j k t other
        ∙ h j
        ∙ ap (λ w. held (open_at t w)) (sym (set_window-other j k none ws other))
  ]

  gate_of-is_shut :
      (s : Store) (ws : Windows) (t bound : ℕ) (account source : Key)
      → Holds s ws t
      → (gate_of r limits s t account source bound).limited
        ≡ is_shut limits account source bound t ws
  gate_of-is_shut s ws t bound account source h =
      let counted : value_or_zero (live s account t) ≡ hits_at t (ws account) =
        ap value_or_zero (h account) ∙ value-held t (ws account) in
      let seen : value_or_zero (live s source t) ≡ hits_at t (ws source) =
        ap value_or_zero (h source) ∙ value-held t (ws source) in
      elim (Bool-cases (leb bound (hits_at t (ws account)))) [
        | inl much ↦ ground (arith, counted, seen)
        | inr few ↦ ground (arith, counted, seen)
      ]

  -- The same answer, and a store that holds the windows.
  abbrev pub Agrees : {A : Type 0} → ℕ → A × Store → A × Windows → Type 0
  Agrees t p q = (p.0 ≡ q.0) × Holds p.1 q.1 t

  agree :
      {A : Type 0} (t : ℕ) (p : A × Store) (q : A × Windows) (x : A) (s : Store) (ws : Windows)
      → p ≡ (x, s)
      → q ≡ (x, ws)
      → Holds s ws t
      → Agrees t p q
  agree t p q x s ws e f h =
      subst (λ z. Agrees t z q) (sym e) (subst (Agrees t (x, s)) (sym f) (refl, h))

  -- A login over Redis answers as the windows say, and leaves what they say.
  pub login-Agrees :
      (a : Attempt) (valid : Bool) (s : Store) (ws : Windows) (t : ℕ)
      → Holds s ws t
      → Agrees t (login r limits a valid t s) (sign_in limits a valid t ws)
  unfolding login sign_in check record_failure reset_account
  login-Agrees a valid s ws t h =
      let gate = gate_of-is_shut s ws t limits.login_max_attempts (account_key a) (ip_key a) h in
      let by = agree t (login r limits a valid t s) (sign_in limits a valid t ws) in
      elim (Bool-cases (is_shut limits (account_key a) (ip_key a) limits.login_max_attempts t ws)) [
        | inl shut ↦ by Answer.rate_limited s ws (ground arith) (ground arith) h
        | inr open_ ↦ elim (Bool-cases valid) [
          | inl good ↦
              by Answer.signed_in _ _ (ground arith) (ground arith)
                (Holds-del (account_key a) s ws t h)
          | inr bad ↦
              by Answer.invalid_credentials _ _ (ground arith) (ground arith)
                (Holds-hit (ip_key a) _ _ t (Holds-hit (account_key a) s ws t h))
        ]
      ]

  pub resend-Agrees :
      (a : Attempt) (s : Store) (ws : Windows) (t : ℕ)
      → Holds s ws t
      → Agrees t (request_resend r limits a t s) (ask_again limits a t ws)
  unfolding request_resend ask_again check_resend record_resend
  resend-Agrees a s ws t h =
      let gate =
        gate_of-is_shut s ws t resend_max_attempts (resend_account_key a) (resend_ip_key a) h in
      let by = agree t (request_resend r limits a t s) (ask_again limits a t ws) in
      elim (Bool-cases
        (is_shut limits (resend_account_key a) (resend_ip_key a) resend_max_attempts t ws)) [
          | inl shut ↦ by ResendAnswer.rate_limited s ws (ground arith) (ground arith) h
          | inr open_ ↦
              by ResendAnswer.counted _ _ (ground arith) (ground arith)
                (Holds-hit (resend_ip_key a) _ _ t (Holds-hit (resend_account_key a) s ws t h))
        ]
