-- ===== src/Auth/Redis.antt =====
-- The commands of Redis that the limits use, as an interface: their operations and, of each, what
-- its documentation says. Nothing of Redis is in the repository.
use homeplate.Base.{ℕ, suc, ◌+◌, ◌*◌, ◌≤◌, ◌≡◌, ◌≢◌, Option, none, some, ltb, if◌then◌else◌}
use native.Mathlib.Decide.{ℕ_discrete}

-- The name space of a counter: hp:ratelimit:<login|verify-resend>:<acct|ip>.
pub data Space : Type 0 where
  login_account login_ip resend_account resend_ip : Space

-- A counter of a digest of an address, or of an IP: both are numbers.
pub record Key : Type 0 where
  pub space : Space
  pub id : ℕ

unfoldable pub Space-discrete : Discrete Space
Space-discrete = hlevel

unfoldable pub Key-discrete : Discrete Key
Key-discrete = hlevel (ℕ_discrete, Space-discrete)

-- A counter and the instant at which it expires, if it does.
pub record Entry : Type 0 where
  pub value : ℕ
  pub deadline : Option ℕ

-- What is left of an entry at a later instant.
abbrev pub at_time : ℕ → Option Entry → Option Entry
at_time t none = none
at_time t (some e) = elim e.deadline [ none ↦ some e | some d ↦ if ltb t d then some e else none ]

-- INCR of an entry, or of none.
abbrev pub incremented : Option Entry → Entry
incremented none = record { value = 1; deadline = none }
incremented (some e) = record e { value = suc e.value }

-- EXPIRE … NX: a deadline where there is none.
abbrev pub expiring : ℕ → Entry → Entry
expiring d e = elim e.deadline [ none ↦ record e { deadline = some d } | some old ↦ e ]

abbrev pub map_entry : (Entry → Entry) → Option Entry → Option Entry
map_entry f none = none
map_entry f (some e) = some (f e)

-- A store and its commands, each at an instant in milliseconds. `live` is what a key holds at an
-- instant; the laws are those of the commands, and that time alone only lets entries expire.
pub record Redis : Type 1 where
  pub Store : Type 0
  pub live : Store → Key → ℕ → Option Entry
  -- TTL, in seconds; 0 stands for its negative answers
  pub ttl : Store → Key → ℕ → ℕ
  pub incr : Key → ℕ → Store → Store
  pub expire_nx : Key → ℕ → ℕ → Store → Store
  pub del : Key → ℕ → Store → Store
  pub live-later : (s : Store) (k : Key) (t t' : ℕ) → t ≤ t' → live s k t' ≡ at_time t' (live s k t)
  pub live-incr :
      (s : Store) (k : Key) (t : ℕ) → live (incr k t s) k t ≡ some (incremented (live s k t))
  pub live-incr_other : (s : Store) (j k : Key) (t : ℕ) → j ≢ k → live (incr k t s) j t ≡ live s j t
  pub live-expire :
      (s : Store) (k : Key) (seconds t : ℕ)
      → live (expire_nx k seconds t s) k t
        ≡ at_time t (map_entry (expiring (t + seconds * 1000)) (live s k t))
  pub live-expire_other :
      (s : Store) (j k : Key) (seconds t : ℕ)
      → j ≢ k
      → live (expire_nx k seconds t s) j t ≡ live s j t
  pub live-del : (s : Store) (k : Key) (t : ℕ) → live (del k t s) k t ≡ none
  pub live-del_other : (s : Store) (j k : Key) (t : ℕ) → j ≢ k → live (del k t s) j t ≡ live s j t
