-- ===== src/Moderation/Filtering.antt =====
-- What the filters of prefilter.js let through.
use homeplate.Base.{
  ◌≡◌, refl, ◌↔◌, false, none, [], ◌∷◌, List, String, arith, inl, inr, Bool-cases, ◌⊎◌,
}
use homeplate.Database.{Rule}
use homeplate.Moderation.Prefilter.{
  Patterns, check, rule_test, live_content_gate, contains_phone_shape,
}

-- No rule of the blocklist fires on the text.
abbrev pub PassesBlocklist : Patterns → String → Type 0
PassesBlocklist p text = (r : Rule) → rule_test p r text ≡ false

pub List-cases : {A : Type 0} (xs : List A) → (xs ≡ []) ⊎ ((y : A) × (ys : List A) × (xs ≡ y ∷ ys))
List-cases [] = inl refl
List-cases (y ∷ ys) = inr (y, ys, refl)

pub check-none_iff : (p : Patterns) (text : String) → (check p text ≡ none) ↔ PassesBlocklist p text
unfolding check
check-none_iff p text = (
  (λ e r. elim r [
    | Rule.direct_threat ↦ ground arith
    | Rule.dehumanizing ↦ ground arith
    | Rule.link_farm ↦ ground arith
    | Rule.bulk_promo ↦ ground arith
    | Rule.offsite_wire ↦ ground arith
    | Rule.advance_fee ↦ ground arith
  ]),
  (λ h. ground (
    arith,
    h Rule.direct_threat,
    h Rule.dehumanizing,
    h Rule.link_farm,
    h Rule.bulk_promo,
    h Rule.offsite_wire,
    h Rule.advance_fee,
  )),
)

pub gate_open_iff :
    (p : Patterns) (text : String)
    → (live_content_gate p text ≡ [])
      ↔ ((p.email_shape text ≡ false) × (contains_phone_shape p text ≡ false))
unfolding live_content_gate
gate_open_iff p text = elim (Bool-cases (p.email_shape text)) [
  | inl mail ↦ ((λ e. absurd (ground arith)), (λ h. absurd (ground (arith, h.0))))
  | inr clean ↦ elim (Bool-cases (contains_phone_shape p text)) [
    | inl phone ↦ ((λ e. absurd (ground arith)), (λ h. absurd (ground (arith, h.1))))
    | inr none_ ↦ ((λ e. (clean, none_)), (λ h. ground arith))
  ]
]
