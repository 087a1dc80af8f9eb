-- ===== src/Auth/SessionTests.antt =====
-- Sessions at concrete inputs.
use homeplate.Base.{◌≡◌, ◌||◌, none, some, [], ◌∷◌, if◌then◌else◌, arith}
use homeplate.Table.{lookup}
use homeplate.Database.{Db, empty_db, SessionRecord, UserRole}
use homeplate.Auth.Sessions.{Scan, is_session_of, destroy_sessions_for_user}
use homeplate.Auth.Revocation.{IsComplete, is_given, destroy_sessions_revokes}
use homeplate.Bookings.Tests.{at}

-- A scan that returns every key once.
abbrev pub keys : Scan
keys [] = []
keys ((k, s) ∷ t) = k ∷ keys t

pub keys-IsComplete : IsComplete keys
keys-IsComplete [] k h = absurd (ground (arith, h))
keys-IsComplete ((j, s) ∷ t) k h = ground (arith, h, keys-IsComplete t k)

-- Two sessions of user 1 and one of user 2.
abbrev signed_in : Db
signed_in = record empty_db {
  sessions =
      (7, record { value = SessionRecord.session 1 (UserRole.user ∷ []) 5; expires_at = 5000 })
      ∷ (8, record { value = SessionRecord.session 2 (UserRole.user ∷ []) 5; expires_at = 5000 })
      ∷ (9, record { value = SessionRecord.session 1 (UserRole.user ∷ []) 6; expires_at = 6000 })
      ∷ [];
}

destroy_sessions_revokes_example :
    lookup 9 (destroy_sessions_for_user (at 100) keys 1 (some 7) signed_in).1.sessions ≡ (
      if is_given 9 (some 7) || is_session_of (at 100) 1 9 signed_in.sessions
      then none
      else lookup 9 signed_in.sessions)
destroy_sessions_revokes_example =
    destroy_sessions_revokes (at 100) keys 1 9 (some 7) signed_in keys-IsComplete
