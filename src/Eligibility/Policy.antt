-- ===== src/Eligibility/Policy.antt =====
-- src/modules/eligibility: the snapshot query of repo.js and the rules of policy.js. The two
-- functions that strip blanks, SQL's btrim and JavaScript's trim, are arguments.
use Prim.Native.String.{String}
use text.Mathlib.Text.{◌==◌ as str_eq}
use homeplate.Base.{
  ℕ, Bool, true, false, not, ◌&&◌, Option, none, some, List, [], ◌∷◌, ◌++◌, if◌then◌else◌, ◌==◌,
  length, is_some,
}
use homeplate.Table.{Table, lookup}
use homeplate.Database.{User, HostProfile}

pub data Action : Type 0 where
  reserve_seat publish_listing : Action

pub data Reason : Type 0 where
  email_unverified name_missing phone_missing host_profile_incomplete : Reason
  host_agreement_missing user_not_found : Reason

-- What getEligibilityAttributes returns.
pub record Snapshot : Type 0 where
  pub email_verified : Bool
  pub has_full_name : Bool
  pub has_phone : Bool
  pub host_profile_complete : Bool
  pub host_agreement_accepted_at : Option ℕ

-- The objects that normalizeUser takes: a snapshot, or a users row with its profile nested.
pub data UserObject : Type 0 where
  snapshot : Snapshot → UserObject
  row : User → Option HostProfile → UserObject

pub record Attributes : Type 0 where
  pub email_verified : Bool
  pub has_full_name : Bool
  pub has_phone : Bool
  pub host_profile_complete : Bool
  pub has_host_agreement : Bool

-- A value that is there and has more than blanks in it, by the given function.
abbrev pub non_blank : (String → String) → Option String → Bool
non_blank strip none = false
non_blank strip (some value) = not (str_eq (strip value) "")

abbrev pub is_host_profile_complete : (String → String) → Option HostProfile → Bool
is_host_profile_complete strip none = false
is_host_profile_complete strip (some profile) = non_blank strip profile.bio

abbrev pub agreement : Option HostProfile → Option ℕ
agreement none = none
agreement (some profile) = profile.host_agreement_accepted_at

-- The SELECT list of SNAPSHOT_SQL.
abbrev pub snapshot_of : (String → String) → User → Option HostProfile → Snapshot
snapshot_of btrim u profile = record {
  email_verified = u.email_verified;
  has_full_name = non_blank btrim u.full_name;
  has_phone = non_blank btrim u.phone_enc;
  host_profile_complete = is_host_profile_complete btrim profile;
  host_agreement_accepted_at = agreement profile;
}

abbrev pub is_live : User → Bool
is_live u = not (is_some u.deleted_at) && not (is_some u.anonymized_at)

unfoldable pub get_eligibility_attributes :
    (String → String) → Table User → Table HostProfile → ℕ → Option Snapshot
get_eligibility_attributes btrim users profiles id = elim (lookup id users) [
  | none ↦ none
  | some u ↦ if is_live u then some (snapshot_of btrim u (lookup id profiles)) else none
]

unfoldable pub normalize_user : (String → String) → UserObject → Attributes
normalize_user trim (UserObject.snapshot s) = record {
  email_verified = s.email_verified;
  has_full_name = s.has_full_name;
  has_phone = s.has_phone;
  host_profile_complete = s.host_profile_complete;
  has_host_agreement = is_some s.host_agreement_accepted_at;
}
normalize_user trim (UserObject.row u profile) = record {
  email_verified = u.email_verified;
  has_full_name = non_blank trim u.full_name;
  has_phone = non_blank trim u.phone_enc;
  host_profile_complete = is_host_profile_complete trim profile;
  has_host_agreement = is_some (agreement profile);
}

-- `if (!attribute) reasons.push(reason)`
abbrev pub missing : Bool → Reason → List Reason
missing true reason = []
missing false reason = reason ∷ []

abbrev pub publish_reasons : Action → Attributes → List Reason
publish_reasons Action.reserve_seat a = []
publish_reasons Action.publish_listing a =
    missing a.host_profile_complete Reason.host_profile_incomplete
    ++ missing a.has_host_agreement Reason.host_agreement_missing

unfoldable pub reasons_for : (String → String) → UserObject → Action → List Reason
reasons_for trim user action =
    let a = normalize_user trim user in
    missing a.email_verified Reason.email_unverified
    ++ (missing a.has_full_name Reason.name_missing
        ++ (missing a.has_phone Reason.phone_missing ++ publish_reasons action a))

unfoldable pub can_reserve_seat : (String → String) → UserObject → Bool
can_reserve_seat trim user = length (reasons_for trim user Action.reserve_seat) == 0

unfoldable pub can_publish_listing : (String → String) → UserObject → Bool
can_publish_listing trim user = length (reasons_for trim user Action.publish_listing) == 0

pub record Verdict : Type 0 where
  pub allowed : Bool
  pub reasons : List Reason

unfoldable pub evaluate :
    (btrim trim : String → String) → Table User → Table HostProfile → ℕ → Action → Verdict
evaluate btrim trim users profiles id action =
    elim (get_eligibility_attributes btrim users profiles id) [
      | none ↦ record { allowed = false; reasons = Reason.user_not_found ∷ [] }
      | some s ↦
          let reasons = reasons_for trim (UserObject.snapshot s) action in
          record { allowed = length reasons == 0; reasons = reasons }
    ]
