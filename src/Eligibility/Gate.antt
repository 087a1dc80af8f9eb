-- ===== src/Eligibility/Gate.antt =====
-- Who passes the eligibility policy.
use Prim.Native.String.{String}
use mathlib.Core.Path.{subst}
use homeplate.Base.{
  ℕ, ◌≡◌, ◌↔◌, arith, true, false, Option, none, some, [], ◌∷◌, length, ◌==◌, Bool-cases,
  Option-cases, inl, inr,
}
use homeplate.Table.{Table, lookup}
use homeplate.Database.{User, HostProfile}
use homeplate.Eligibility.Policy.{
  Action, Reason, UserObject, Attributes, snapshot_of, is_live, get_eligibility_attributes,
  normalize_user, reasons_for, can_reserve_seat, can_publish_listing, evaluate,
}

-- The three attributes that every action needs, and the two more for publishing.
abbrev pub Identified : Attributes → Type 0
Identified a = (a.email_verified ≡ true) × (a.has_full_name ≡ true) × (a.has_phone ≡ true)

abbrev pub Qualifies : Action → Attributes → Type 0
Qualifies Action.reserve_seat a = Identified a
Qualifies Action.publish_listing a =
    Identified a × (a.host_profile_complete ≡ true) × (a.has_host_agreement ≡ true)

module _ (trim : String → String) where
  reasons_for-Qualifies :
      (o : UserObject) (action : Action)
      → (length (reasons_for trim o action) == 0) ≡ true
      → Qualifies action (normalize_user trim o)
  unfolding reasons_for
  reasons_for-Qualifies o Action.reserve_seat h = ground arith
  reasons_for-Qualifies o Action.publish_listing h = ground arith

  Qualifies-reasons_for :
      (o : UserObject) (action : Action)
      → Qualifies action (normalize_user trim o)
      → reasons_for trim o action ≡ []
  unfolding reasons_for
  Qualifies-reasons_for o Action.reserve_seat q = ground arith
  Qualifies-reasons_for o Action.publish_listing q = ground arith

  -- A seat may be reserved exactly by who has a verified email, a name and a phone number, and a
  -- listing may be published exactly by who may reserve a seat and has a complete profile and an
  -- accepted agreement.
  pub can_publish_listing_iff :
      (o : UserObject)
      → (can_reserve_seat trim o ≡ true ↔ Identified (normalize_user trim o))
        × (can_publish_listing trim o ≡ true
            ↔ (can_reserve_seat trim o ≡ true)
              × (let a = normalize_user trim o in
                  (a.host_profile_complete ≡ true) × (a.has_host_agreement ≡ true)))
  unfolding can_reserve_seat can_publish_listing
  can_publish_listing_iff o = (
    (
      reasons_for-Qualifies o Action.reserve_seat,
      λ q. ground (arith, Qualifies-reasons_for o Action.reserve_seat q),
    ),
    (
      (λ h.
          let (q, profile, signed) = reasons_for-Qualifies o Action.publish_listing h in
          (ground (arith, Qualifies-reasons_for o Action.reserve_seat q), (profile, signed))),
      λ (h, (profile, signed)). ground (
        arith,
        Qualifies-reasons_for o Action.publish_listing
            (reasons_for-Qualifies o Action.reserve_seat h, profile, signed),
      ),
    ),
  )

module _ (btrim trim : String → String) (users : Table User) (profiles : Table HostProfile)
    (id : ℕ) where
  evaluate-live :
      (action : Action) (u : User)
      → lookup id users ≡ some u
      → is_live u ≡ true
      → evaluate btrim trim users profiles id action ≡ (
          let reasons =
            reasons_for trim
              (UserObject.snapshot (snapshot_of btrim u (lookup id profiles)))
              action in
          record { allowed = length reasons == 0; reasons = reasons })
  unfolding evaluate get_eligibility_attributes
  evaluate-live action u e live = ground arith

  evaluate-refused :
      (action : Action)
      → get_eligibility_attributes btrim users profiles id ≡ none
      → evaluate btrim trim users profiles id action
        ≡ record { allowed = false; reasons = Reason.user_not_found ∷ [] }
  unfolding evaluate
  evaluate-refused action e = ground arith

same_row : {u v : User} {found : Option User} → found ≡ some u → found ≡ some v → v ≡ u
same_row e here = ground arith

-- evaluate allows an action exactly when the user's account is there, is neither deleted nor
-- anonymized, and its rows qualify for the action; and it gives a reason exactly when it refuses.
pub evaluate_iff :
    (btrim trim : String → String) (users : Table User) (profiles : Table HostProfile) (id : ℕ)
    (action : Action)
    → let verdict = evaluate btrim trim users profiles id action in
      (verdict.allowed ≡ true
        ↔ (u : User) × (lookup id users ≡ some u)
          × (u.deleted_at ≡ none)
          × (u.anonymized_at ≡ none)
          × Qualifies action (normalize_user btrim (UserObject.row u (lookup id profiles))))
      × (verdict.allowed ≡ true ↔ verdict.reasons ≡ [])
unfolding get_eligibility_attributes normalize_user
evaluate_iff btrim trim users profiles id action = elim (Option-cases (lookup id users)) [
  | inl e ↦
      let refused = evaluate-refused btrim trim users profiles id action (ground arith) in
      (
        ((λ h. absurd (ground arith)), (λ (u, here, kept, named, q). absurd (ground arith))),
        ((λ h. absurd (ground arith)), (λ h. absurd (ground arith))),
      )
  | inr (u, e) ↦ elim (Bool-cases (is_live u)) [
    | inl live ↦
        let o = UserObject.snapshot (snapshot_of btrim u (lookup id profiles)) in
        let run = evaluate-live btrim trim users profiles id action u e live in
        (
          (
            (λ h. (
              u,
              e,
              ground arith,
              ground arith,
              reasons_for-Qualifies trim o action (ground arith),
            )),
            (λ (v, here, kept, named, q).
                let none_missing = Qualifies-reasons_for trim o action (
                  subst
                    (λ x.
                      Qualifies action
                        (normalize_user btrim (UserObject.row x (lookup id profiles))))
                    (same_row e here) q) in
                ground (arith, none_missing)),
          ),
          ((λ h. ground arith), (λ h. ground arith)),
        )
    | inr gone ↦
        let refused = evaluate-refused btrim trim users profiles id action (ground arith) in
        (
          (
            (λ h. absurd (ground arith)),
            (λ (v, here, kept, named, q). absurd (ground (arith, e, here, gone))),
          ),
          ((λ h. absurd (ground arith)), (λ h. absurd (ground arith))),
        )
  ]
]
