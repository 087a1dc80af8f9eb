-- ===== src/Auth/Sessions.antt =====
-- src/modules/auth/sessions.js and destroySessionsForUser of src/modules/privacy/service.js: the
-- sessions that Redis holds under the digests of their tokens. A token is given by its digest, a
-- cookie that is empty or no string by none.
use homeplate.Base.{
  ℕ, ◌+◌, ◌*◌, Bool, false, Option, none, some, List, [], ◌∷◌, ltb, ◌==◌, if◌then◌else◌, is_some,
  tally,
}
use homeplate.Table.{Table, lookup, remove}
use homeplate.Database.{Env, Tx, ok, ◌>>=◌, Session, SessionRecord, UserRole}

-- GET: what a key holds that has not expired.
abbrev pub unexpired : Env → Option Session → Option SessionRecord
unexpired env none = none
unexpired env (some s) = if ltb env.date_now s.expires_at then some s.value else none

abbrev pub live : Env → ℕ → Table Session → Option SessionRecord
live env k t = unexpired env (lookup k t)

-- SET … EX: under the one key, in place of what it held.
abbrev pub put : ℕ → Session → Table Session → Table Session
put k s t = (k, s) ∷ remove k t

-- DEL: whether there was such a key, and the rest.
abbrev pub del : Env → ℕ → Table Session → Bool × Table Session
del env k t = (is_some (live env k t), remove k t)

-- The session under a fresh token, of which only the digest is kept.
unfoldable pub create_session : Env → (ttl_seconds digest user : ℕ) → List UserRole → Tx (Unit {0})
create_session env ttl_seconds digest user roles db =
    let s : Session = record {
      value = SessionRecord.session user roles env.date_now;
      expires_at = env.date_now + ttl_seconds * 1000;
    } in
    (ok tt, record db { sessions = put digest s db.sessions })

pub record SessionView : Type 0 where
  pub user_id : ℕ
  pub session_id : ℕ
  pub roles : List UserRole

-- A corrupt record is dropped and gives no session.
unfoldable pub get_session : Env → Option ℕ → Tx (Option SessionView)
get_session env none db = (ok none, db)
get_session env (some digest) db = elim (live env digest db.sessions) [
  | none ↦ (ok none, db)
  | some SessionRecord.corrupt ↦ (ok none, record db { sessions = remove digest db.sessions })
  | some (SessionRecord.session user roles created) ↦
      (ok (some (record { user_id = user; session_id = digest; roles = roles })), db)
]

unfoldable pub destroy_session : Env → Option ℕ → Tx Bool
destroy_session env none db = (ok false, db)
destroy_session env (some digest) db =
    let (was, rest) = del env digest db.sessions in (ok was, record db { sessions = rest })

-- record && record.userId === userId
abbrev pub is_owned_by : ℕ → Option SessionRecord → Bool
is_owned_by user none = false
is_owned_by user (some SessionRecord.corrupt) = false
is_owned_by user (some (SessionRecord.session owner roles created)) = owner == user

-- The session under a key is that of the user.
abbrev pub is_session_of : Env → ℕ → ℕ → Table Session → Bool
is_session_of env user k t = is_owned_by user (live env k t)

-- The keys that the pages of a scan give, one after the other.
abbrev pub destroy_keys : Env → ℕ → List ℕ → Table Session → ℕ × Table Session
destroy_keys env user [] t = (0, t)
destroy_keys env user (k ∷ ks) t =
    let here = is_session_of env user k t in
    let (n, rest) = destroy_keys env user ks (if here then remove k t else t) in
    (tally here + n, rest)

-- SCAN from the cursor 0 until it is 0 again, page after page: the keys in the order in which it
-- returns them.
abbrev pub Scan : Type 0
Scan = Table Session → List ℕ

unfoldable pub destroy_sessions_for_user : Env → Scan → (user : ℕ) → (current : Option ℕ) → Tx ℕ
destroy_sessions_for_user env scan user current = destroy_session env current >>= λ was. λ db.
    let (n, rest) = destroy_keys env user (scan db.sessions) db.sessions in
    (ok (tally was + n), record db { sessions = rest })
