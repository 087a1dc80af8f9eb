-- ===== src/Auth/Traces.antt =====
-- Sequences of logins and of requests for a verification mail, over Redis and over windows.
use mathlib.Core.Path.{ap₂}
use homeplate.Base.{ℕ, ◌+◌, ◌≡◌, refl, ap, Bool, none, List, [], ◌∷◌, arith}
use homeplate.Auth.Redis.{Key, Redis}
use homeplate.Auth.RateLimit.{Attempt, Limits, Answer, ResendAnswer, login, request_resend}
use homeplate.Auth.Windows.{Windows, sign_in, ask_again}
use homeplate.Auth.Refinement.{Holds, Holds-later, login-Agrees, resend-Agrees}

-- One request: a login, with whether its password is right, or another verification mail.
pub data Request : Type 0 where
  to_login : Attempt → (valid : Bool) → Request
  to_resend : Attempt → Request

pub data Reply : Type 0 where
  of_login : Answer → Reply
  of_resend : ResendAnswer → Reply

module _ (r : Redis) (limits : Limits) where
  open r use {Store}

  abbrev pub serve : Request → ℕ → Store → Reply × Store
  serve (Request.to_login a valid) t s =
      let (x, s') = login r limits a valid t s in (Reply.of_login x, s')
  serve (Request.to_resend a) t s =
      let (x, s') = request_resend r limits a t s in (Reply.of_resend x, s')

  -- The replies to requests, each some time behind the one before.
  abbrev pub replies : ℕ → Store → List (ℕ × Request) → List Reply
  replies t s [] = []
  replies t s ((wait, q) ∷ qs) = let (x, s') = serve q (t + wait) s in x ∷ replies (t + wait) s' qs

  abbrev pub answer : Request → ℕ → Windows → Reply × Windows
  answer (Request.to_login a valid) t ws =
      let (x, ws') = sign_in limits a valid t ws in (Reply.of_login x, ws')
  answer (Request.to_resend a) t ws =
      let (x, ws') = ask_again limits a t ws in (Reply.of_resend x, ws')

  -- The replies that the windows give.
  abbrev pub specified : ℕ → Windows → List (ℕ × Request) → List Reply
  specified t ws [] = []
  specified t ws ((wait, q) ∷ qs) =
      let (x, ws') = answer q (t + wait) ws in x ∷ specified (t + wait) ws' qs

  serve-agrees :
      (q : Request) (t : ℕ) (s : Store) (ws : Windows)
      → Holds r limits s ws t
      → ((serve q t s).0 ≡ (answer q t ws).0) × Holds r limits (serve q t s).1 (answer q t ws).1 t
  serve-agrees (Request.to_login a valid) t s ws h =
      let (same, after) = login-Agrees r limits a valid s ws t h in (ap Reply.of_login same, after)
  serve-agrees (Request.to_resend a) t s ws h =
      let (same, after) = resend-Agrees r limits a s ws t h in (ap Reply.of_resend same, after)

  replies-specified :
      (t : ℕ) (s : Store) (ws : Windows) (qs : List (ℕ × Request))
      → Holds r limits s ws t
      → replies t s qs ≡ specified t ws qs
  replies-specified t s ws [] h = refl
  replies-specified t s ws ((wait, q) ∷ qs) h =
      let now = Holds-later r limits s ws t (t + wait) (omega arith) h in
      let (same, after) = serve-agrees q (t + wait) s ws now in
      ap₂ ◌∷◌ same (replies-specified (t + wait) _ _ qs after)

  -- From a store that holds none of their counters, any sequence of logins and of requests for
  -- verification mails is answered as windows of fixed length answer it, that open with the first
  -- hit of their account or source, count the hits in them and are cleared for an account by its
  -- success.
  pub limits_are_windows :
      (t : ℕ) (s : Store) (qs : List (ℕ × Request))
      → ((k : Key) → r.live s k t ≡ none)
      → replies t s qs ≡ specified t (λ _. none) qs
  limits_are_windows t s qs empty = replies-specified t s (λ _. none) qs empty
