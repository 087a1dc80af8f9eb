-- ===== src/Eligibility/Tests.antt =====
-- The eligibility policy at concrete inputs.
use Prim.Native.String.{String}
use homeplate.Base.{◌≡◌, ◌↔◌, true, false, none, some, [], ◌∷◌}
use homeplate.Table.{lookup}
use homeplate.Database.{User, HostProfile, Email, PasswordHash, UserRole}
use homeplate.Eligibility.Policy.{Action, UserObject, normalize_user, evaluate}
use homeplate.Eligibility.Gate.{Qualifies, evaluate_iff}

-- A user with a name and a phone number, and with a profile that has no agreement.
abbrev pub cook : User
cook = record {
  email = Email.address "ada@example.org";
  email_verified = true;
  password_hash = PasswordHash.argon "h";
  full_name = some "Ada";
  phone_enc = some "v1:3f";
  emergency_contact_name_enc = none;
  emergency_contact_phone_enc = some "v1:77";
  emergency_contact_email_enc = none;
  can_reserve_seat = true;
  can_publish_listing = false;
  roles = UserRole.user ∷ [];
  last_active_at = 9;
  deleted_at = none;
  anonymized_at = none;
  created_at = 9;
}

abbrev pub profile : HostProfile
profile = record { bio = some "I cook."; host_agreement_accepted_at = none }

-- Nothing is stripped.
abbrev keep : String → String
keep s = s

evaluate_iff_example :
    let verdict =
      evaluate keep keep ((6, cook) ∷ []) ((6, profile) ∷ []) 6 Action.publish_listing in
    (verdict.allowed ≡ true
      ↔ (u : User) × (lookup 6 ((6, cook) ∷ []) ≡ some u)
        × (u.deleted_at ≡ none)
        × (u.anonymized_at ≡ none)
        × Qualifies Action.publish_listing (normalize_user keep (UserObject.row u (some profile))))
    × (verdict.allowed ≡ true ↔ verdict.reasons ≡ [])
evaluate_iff_example =
    evaluate_iff keep keep ((6, cook) ∷ []) ((6, profile) ∷ []) 6 Action.publish_listing
