-- ===== src/Moderation/Prefilter.antt =====
-- src/modules/moderation/prefilter.js: the rules of the blocklist, the limit on the submissions
-- of an author, and the gate before the live provider.
use homeplate.Base.{
  ℕ, Bool, true, false, ◌&&◌, not, Option, none, some, List, [], ◌∷◌, ◌++◌, String, leb, ltb,
  if◌then◌else◌,
}
use homeplate.Database.{Category, Rule, GateReason}

-- What JavaScript's regular expressions find in a text.
pub record Patterns : Type 0 where
  -- whether the expression of a rule matches
  pub matches : Rule → String → Bool
  -- how often `https?://` does
  pub links : String → ℕ
  pub email_shape : String → Bool
  -- the first match of PHONE_TOKEN, without the separators around it
  pub phone_token : String → Option String
  pub iso_date_shape : String → Bool
  -- how many digits a token has
  pub digits : String → ℕ

abbrev pub window_minutes : ℕ
window_minutes = 60

abbrev pub max_submissions_per_window : ℕ
max_submissions_per_window = 15

-- DATA_USE_REVIEW.ratified
abbrev pub ratified : Bool
ratified = true

abbrev pub category_of : Rule → Category
category_of Rule.direct_threat = Category.offensive
category_of Rule.dehumanizing = Category.offensive
category_of Rule.link_farm = Category.spam
category_of Rule.bulk_promo = Category.spam
category_of Rule.offsite_wire = Category.fraudulent
category_of Rule.advance_fee = Category.fraudulent

abbrev pub blocklist : List Rule
blocklist =
    Rule.direct_threat ∷ Rule.dehumanizing ∷ Rule.link_farm ∷ Rule.bulk_promo ∷ Rule.offsite_wire
    ∷ Rule.advance_fee ∷ []

-- More than the budget, the submission under scan counted.
abbrev pub exceeds_rate_limit : ℕ → Bool
exceeds_rate_limit recent = ltb max_submissions_per_window recent

-- A reason, where its test fires.
abbrev pub reason_if : Bool → GateReason → List GateReason
reason_if c r = if c then r ∷ [] else []

module _ (p : Patterns) where
  -- rule.test: three links are a farm; the other rules match an expression.
  abbrev pub rule_test : Rule → String → Bool
  rule_test Rule.link_farm text = leb 3 (p.links text)
  rule_test r text = p.matches r text

  abbrev pub first_hit : List Rule → String → Option Rule
  first_hit [] text = none
  first_hit (r ∷ rs) text =
      let rest = first_hit rs text in if rule_test r text then some r else rest

  -- The rule that blocks a text; none is the verdict 'pass'.
  unfoldable pub check : String → Option Rule
  check text = first_hit blocklist text

  abbrev pub is_phone : String → Bool
  is_phone token =
      not (p.iso_date_shape token) && (leb 7 (p.digits token) && leb (p.digits token) 15)

  abbrev pub contains_phone_shape : String → Bool
  contains_phone_shape text = elim (p.phone_token text) [
    | none ↦ false
    | some token ↦ is_phone token
  ]

  -- The reasons against sending a text to the live provider; none allows it.
  unfoldable pub live_content_gate : String → List GateReason
  live_content_gate text =
      reason_if (not ratified) GateReason.not_ratified
      ++ (reason_if (p.email_shape text) GateReason.email_shaped
          ++ reason_if (contains_phone_shape text) GateReason.phone_shaped)
