-- ===== src/Auth/Revocation.antt =====
-- Sessions from their start to their end: what a token gives, and the end of all of a user's.
use homeplate.Base.{
  ℕ, ◌+◌, ◌*◌, ◌≡◌, refl, sym, ap, ◌∙◌, Bool, true, false, Option, none, some, List, [], ◌∷◌, arith,
  inl, inr, Bool-cases, Option-cases, is_some, ◌==◌, ltb, if◌then◌else◌, tally, ==_refl, ◌||◌,
}
use mathlib.Core.Path.{subst}
use homeplate.Table.{Table, lookup, remove}
use homeplate.Table.Updates.{lookup-remove}
use homeplate.Database.{Db, Env, ok, Session, UserRole}
use homeplate.Auth.Sessions.{
  unexpired, live, is_owned_by, is_session_of, destroy_keys, Scan, destroy_sessions_for_user,
  destroy_session, create_session, get_session,
}

abbrev pub has_member : ℕ → List ℕ → Bool
has_member k [] = false
has_member k (j ∷ ks) = k == j || has_member k ks

-- What the documentation of SCAN promises: a full iteration returns every key that is there all
-- along.
abbrev pub IsComplete : Scan → Type 0
IsComplete scan =
    (t : Table Session) (k : ℕ) → is_some (lookup k t) ≡ true → has_member k (scan t) ≡ true

-- A session is told by what its key holds.
is_session_of-lookup :
    (env : Env) (user k : ℕ) (t u : Table Session)
    → lookup k t ≡ lookup k u
    → is_session_of env user k t ≡ is_session_of env user k u
is_session_of-lookup env user k t u e =
    ap (λ (o : Option Session). is_owned_by user (unexpired env o)) e

-- What a step of the sweep makes of the table.
abbrev swept : Env → ℕ → ℕ → Table Session → Table Session
swept env user k t = if is_session_of env user k t then remove k t else t

swept-other :
    (env : Env) (user j k : ℕ) (t : Table Session)
    → is_session_of env user j t ≡ false
    → lookup j (swept env user k t) ≡ lookup j t
swept-other env user j k t h = elim (Bool-cases (is_session_of env user k t)) [
  | inr other ↦ ground arith
  | inl mine ↦ elim (Bool-cases (j == k)) [
    | inl same ↦
        let e : j ≡ k = ground arith in
        let clash = sym mine ∙ ap (λ i. is_session_of env user i t) (sym e) ∙ h in
        absurd (ground (arith, clash))
    | inr apart ↦ ground (arith, lookup-remove j k t)
  ]
]

-- The sweep leaves what is no session of the user.
destroy_keys-other :
    (env : Env) (user j : ℕ) (ks : List ℕ) (t : Table Session)
    → is_session_of env user j t ≡ false
    → lookup j (destroy_keys env user ks t).1 ≡ lookup j t
destroy_keys-other env user j [] t h = refl
destroy_keys-other env user j (k ∷ ks) t h =
    let step = swept-other env user j k t h in
    let still = is_session_of-lookup env user j (swept env user k t) t step ∙ h in
    destroy_keys-other env user j ks (swept env user k t) still ∙ step

-- Every session of the user that the sweep comes by is gone then.
destroy_keys-swept :
    (env : Env) (user j : ℕ) (ks : List ℕ) (t : Table Session)
    → has_member j ks ≡ true
    → is_session_of env user j t ≡ true
    → lookup j (destroy_keys env user ks t).1 ≡ none
destroy_keys-swept env user j [] t h mine = absurd (ground arith)
destroy_keys-swept env user j (k ∷ ks) t h mine = elim (Bool-cases (j == k)) [
  | inl same ↦
      let e : k ≡ j = ground arith in
      let gone : lookup j (swept env user k t) ≡ none =
        subst (λ i. lookup j (swept env user i t) ≡ none) (sym e)
          (ground (arith, lookup-remove j j t, ==_refl j)) in
      let absent = is_session_of-lookup env user j (swept env user k t) [] gone in
      destroy_keys-other env user j ks (swept env user k t) absent ∙ gone
  | inr apart ↦
      let kept : lookup j (swept env user k t) ≡ lookup j t = ground (arith, lookup-remove j k t) in
      destroy_keys-swept env user j ks (swept env user k t) (ground arith)
        (is_session_of-lookup env user j (swept env user k t) t kept ∙ mine)
]

-- The sessions when all of a user's have been destroyed.
abbrev pub sessions_after : Env → Scan → ℕ → Option ℕ → Db → Table Session
sessions_after env scan user current db =
    (destroy_sessions_for_user env scan user current db).1.sessions

-- It succeeds, and touches nothing but the sessions.
pub destroy_sessions-ok :
    (env : Env) (scan : Scan) (user : ℕ) (current : Option ℕ) (db : Db)
    → (n : ℕ) × (destroy_sessions_for_user env scan user current db
        ≡ (ok n, record db { sessions = sessions_after env scan user current db }))
unfolding destroy_sessions_for_user destroy_session
destroy_sessions-ok env scan user none db =
    (tally false + (destroy_keys env user (scan db.sessions) db.sessions).0, refl)
destroy_sessions-ok env scan user (some token) db =
    let rest = remove token db.sessions in
    (
      tally (is_some (live env token db.sessions)) + (destroy_keys env user (scan rest) rest).0,
      refl,
    )

destroy_keys-all :
    (env : Env) (scan : Scan) (user k : ℕ) (t : Table Session)
    → IsComplete scan
    → lookup k (destroy_keys env user (scan t) t).1
      ≡ (if is_session_of env user k t then none else lookup k t)
destroy_keys-all env scan user k t complete = elim (Bool-cases (is_session_of env user k t)) [
  | inr other ↦ ground (arith, destroy_keys-other env user k (scan t) t other)
  | inl mine ↦ elim (Option-cases (lookup k t)) [
    | inr (s, found) ↦
        let here = complete t k (ap is_some found) in
        ground (arith, destroy_keys-swept env user k (scan t) t here mine)
    | inl gone ↦ absurd (ground (arith, is_session_of-lookup env user k t [] gone))
  ]
]

-- The token that the call came with.
abbrev pub is_given : ℕ → Option ℕ → Bool
is_given k none = false
is_given k (some token) = k == token

-- When the scan of Redis is complete, destroySessionsForUser leaves nothing under the key of the
-- token that it is given, and nothing under a key that held a live session of the user; what any
-- other key held is as it was.
pub destroy_sessions_revokes :
    (env : Env) (scan : Scan) (user k : ℕ) (current : Option ℕ) (db : Db)
    → IsComplete scan
    → lookup k (destroy_sessions_for_user env scan user current db).1.sessions ≡ (
        if is_given k current || is_session_of env user k db.sessions
        then none
        else lookup k db.sessions)
unfolding destroy_sessions_for_user destroy_session
destroy_sessions_revokes env scan user k none db complete =
    destroy_keys-all env scan user k db.sessions complete
destroy_sessions_revokes env scan user k (some token) db complete =
    let rest = remove token db.sessions in
    elim (Bool-cases (k == token)) [
      | inl given ↦
          let gone : lookup k rest ≡ none = ground (arith, lookup-remove k token db.sessions) in
          ground (
            arith,
            destroy_keys-all env scan user k rest complete,
            is_session_of-lookup env user k rest [] gone,
          )
      | inr apart ↦
          let same : lookup k rest ≡ lookup k db.sessions =
            ground (arith, lookup-remove k token db.sessions) in
          ground (
            arith,
            destroy_keys-all env scan user k rest complete,
            is_session_of-lookup env user k rest db.sessions same,
          )
    ]

-- The session of the token and those that the user has are gone, and every other key is as it was.
abbrev pub Ended : Env → ℕ → Option ℕ → Table Session → Table Session → Type 0
Ended env user current before after =
    (k : ℕ)
    → lookup k after
      ≡ (if is_given k current || is_session_of env user k before then none else lookup k before)

pub sessions_after-Ended :
    (env : Env) (scan : Scan) (user : ℕ) (current : Option ℕ) (db : Db)
    → IsComplete scan
    → Ended env user current db.sessions (sessions_after env scan user current db)
sessions_after-Ended env scan user current db complete k =
    destroy_sessions_revokes env scan user k current db complete

pub sessions_after-none :
    (env : Env) (scan : Scan) (user k : ℕ) (current : Option ℕ) (db : Db)
    → IsComplete scan
    → is_session_of env user k (sessions_after env scan user current db) ≡ false
sessions_after-none env scan user k current db complete =
    let after = sessions_after env scan user current db in
    let is = destroy_sessions_revokes env scan user k current db complete in
    elim (Bool-cases (is_given k current || is_session_of env user k db.sessions)) [
      | inl ended ↦ is_session_of-lookup env user k after [] (ground (arith, is))
      | inr kept ↦
          is_session_of-lookup env user k after db.sessions (ground (arith, is)) ∙ ground arith
    ]

-- A session that is opened answers with its user and roles under its token until its time is up,
-- and with nothing from then on; once it is destroyed, it answers with nothing at any time.
pub session_lifecycle :
    (env later again : Env) (ttl digest user : ℕ) (roles : List UserRole) (db : Db)
    → let opened = (create_session env ttl digest user roles db).1 in
      let closed = (destroy_session later (some digest) opened).1 in
      (get_session later (some digest) opened ≡ (
        ok (
            if ltb later.date_now (env.date_now + ttl * 1000)
            then some (record { user_id = user; session_id = digest; roles = roles })
            else none),
        opened,
      ))
      × (get_session again (some digest) closed ≡ (ok none, closed))
unfolding create_session get_session destroy_session
session_lifecycle env later again ttl digest user roles db = (
  elim (Bool-cases (ltb later.date_now (env.date_now + ttl * 1000))) [
    | inl early ↦ ground (arith, ==_refl digest)
    | inr late ↦ ground (arith, ==_refl digest)
  ],
  ground (
    arith,
    ==_refl digest,
    lookup-remove digest digest (create_session env ttl digest user roles db).1.sessions,
  ),
)
