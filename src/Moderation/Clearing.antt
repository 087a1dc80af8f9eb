-- ===== src/Moderation/Clearing.antt =====
-- When a scan approves: what the pipeline of processScan has found of a content by then.
use homeplate.Base.{
  ℕ, ◌≤◌, ◌≡◌, refl, ◌↔◌, true, false, some, String, arith, inl, inr, Option-cases, Bool-cases, leb,
  ltb, ◌⊎◌,
}
use mathlib.Core.Path.{subst}
use homeplate.Database.{
  Db, Env, Result-cases, ok, err, ContentType, ModerationStatus, Category, Failure,
}
use homeplate.Moderation.Prefilter.{
  check, live_content_gate, contains_phone_shape, window_minutes, max_submissions_per_window,
}
use homeplate.Moderation.Repo.{Content, count_recent_by_author, load_content}
use homeplate.Moderation.Service.{
  Scanner, Classification, Verdict, route, classify_content, judge_text, judge_author, judge,
  begin_scan, is_benign, is_pending,
}
use homeplate.Moderation.Filtering.{PassesBlocklist, List-cases, check-none_iff, gate_open_iff}

-- Nothing of a personal shape goes to a live provider.
abbrev pub IsSendable : Scanner → String → Type 0
IsSendable s text =
    s.is_live ≡ true
    → (s.patterns.email_shape text ≡ false) × (contains_phone_shape s.patterns text ≡ false)

-- The author of a content, if any, is within the budget of submissions.
abbrev pub IsWithinRate : Env → ContentType → Content → Db → Type 0
IsWithinRate env type content db =
    (author : ℕ)
    → content.author_id ≡ some author
    → (n : ℕ) × (count_recent_by_author env type author window_minutes db ≡ (ok n, db))
      × (n ≤ max_submissions_per_window)

-- The classifier finds the text benign, with enough confidence.
abbrev pub IsClassified : Scanner → String → Classification → Type 0
IsClassified s text c =
    (s.classify text ≡ ok c)
    × (c.category ≡ Category.benign)
    × (s.confidence_threshold ≤ c.confidence)

-- The reasons for which the pipeline approves a content.
abbrev pub IsCleared : Scanner → Env → ContentType → Content → Db → Classification → Type 0
IsCleared s env type content db c =
    PassesBlocklist s.patterns content.text
    × IsWithinRate env type content db
    × IsSendable s content.text
    × IsClassified s content.text c

benign-eq : (k : Category) → is_benign k ≡ true → k ≡ Category.benign
benign-eq Category.offensive h = absurd (ground arith)
benign-eq Category.spam h = absurd (ground arith)
benign-eq Category.fraudulent h = absurd (ground arith)
benign-eq Category.benign h = refl
benign-eq Category.unclassified h = absurd (ground arith)

route_iff :
    (s : Scanner) (b c : Classification)
    → (route s b ≡ Verdict.approved c)
      ↔ ((b ≡ c) × (c.category ≡ Category.benign) × (s.confidence_threshold ≤ c.confidence))
route_iff s b c = (
  (λ e. elim (Bool-cases (is_benign b.category)) [
    | inl good ↦ elim (Bool-cases (leb s.confidence_threshold b.confidence)) [
      | inl sure ↦
          let same : b ≡ c = ground arith in
          (same, rw (← same) (benign-eq b.category good), rw (← same) (ground arith))
      | inr doubt ↦ absurd (ground arith)
    ]
    | inr bad ↦ absurd (ground arith)
  ]),
  (λ h. ground (arith, h.0, h.1, h.2)),
)

classify_content_iff :
    (s : Scanner) (text : String) (c : Classification) (db : Db)
    → (classify_content s text db ≡ (ok (Verdict.approved c), db)) ↔ IsClassified s text c
classify_content_iff s text c db = elim (Result-cases (s.classify text, db)) [
  | inl (b, d, e) ↦
      let said : s.classify text ≡ ok b = ground arith in
      (
        (λ h.
            let (same, good, sure) = (route_iff s b c).0 (ground arith) in
            (ground arith, good, sure)),
        (λ h. ground (arith, (route_iff s b c).1 (ground (arith, h.0), h.1, h.2))),
      )
  | inr (x, d, e) ↦
      let failed : s.classify text ≡ err x = ground arith in
      ((λ h. absurd (ground arith)), (λ h. absurd (ground (arith, h.0))))
]

pub Status-cases : (m : ModerationStatus) → (m ≡ ModerationStatus.pending) ⊎ (is_pending m ≡ false)
Status-cases ModerationStatus.pending = inl refl
Status-cases ModerationStatus.approved = inr refl
Status-cases ModerationStatus.rejected = inr refl

judge_text_iff :
    (s : Scanner) (text : String) (c : Classification) (db : Db)
    → (judge_text s text db ≡ (ok (Verdict.approved c), db))
      ↔ (IsSendable s text × IsClassified s text c)
judge_text_iff s text c db = elim (Bool-cases s.is_live) [
  | inr mock ↦ (
    (λ e. ((λ live. absurd (ground arith)), (classify_content_iff s text c db).0 (ground arith))),
    (λ h. ground (arith, (classify_content_iff s text c db).1 h.1)),
  )
  | inl live ↦ elim (List-cases (live_content_gate s.patterns text)) [
    | inl open_ ↦ (
      (λ e. (
        (λ _. (gate_open_iff s.patterns text).0 open_),
        (classify_content_iff s text c db).0 (ground arith),
      )),
      (λ h. ground (arith, (classify_content_iff s text c db).1 h.1)),
    )
    | inr (r, rs, shut) ↦ (
      (λ e. absurd (ground arith)),
      (λ h. absurd (ground (arith, (gate_open_iff s.patterns text).1 (h.0 live)))),
    )
  ]
]

count_recent-reads :
    (env : Env) (type : ContentType) (author minutes : ℕ) (db : Db)
    → ((n : ℕ) × (count_recent_by_author env type author minutes db ≡ (ok n, db)))
      ⊎ (count_recent_by_author env type author minutes db ≡ (err Failure.type_error, db))
unfolding count_recent_by_author
count_recent-reads env ContentType.listing author minutes db = inl (_, refl)
count_recent-reads env ContentType.review author minutes db = inl (_, refl)
count_recent-reads env ContentType.message author minutes db = inl (_, refl)
count_recent-reads env ContentType.safety_alert author minutes db = inr refl

judge_author_iff :
    (s : Scanner) (env : Env) (type : ContentType) (content : Content) (c : Classification)
    (db : Db)
    → (judge_author s env type content db ≡ (ok (Verdict.approved c), db)) ↔ (
        IsWithinRate env type content db
        × IsSendable s content.text
        × IsClassified s content.text c)
judge_author_iff s env type content c db = elim (Option-cases content.author_id) [
  | inl nobody ↦ (
    (λ e.
        let rest = (judge_text_iff s content.text c db).0 (ground arith) in
        ((λ a is. absurd (ground arith)), rest.0, rest.1)),
    (λ h. ground (arith, (judge_text_iff s content.text c db).1 (h.1, h.2))),
  )
  | inr (a, is) ↦ elim (count_recent-reads env type a window_minutes db) [
    | inl (n, counted) ↦ elim (Bool-cases (ltb max_submissions_per_window n)) [
      | inl flood ↦ (
        (λ e. absurd (ground arith)),
        (λ h. let (m, again, few) = h.0 a is in absurd (ground arith)),
      )
      | inr few ↦ (
        (λ e.
            let rest = (judge_text_iff s content.text c db).0 (ground arith) in
            ((λ b his. (n, ground arith, ground arith)), rest.0, rest.1)),
        (λ h. ground (arith, (judge_text_iff s content.text c db).1 (h.1, h.2))),
      )
    ]
    | inr thrown ↦ (
      (λ e. absurd (ground arith)),
      (λ h. let (m, again, few) = h.0 a is in absurd (ground arith)),
    )
  ]
]

judge_approves_iff :
    (s : Scanner) (env : Env) (type : ContentType) (content : Content) (c : Classification)
    (db : Db)
    → (judge s env type content db ≡ (ok (Verdict.approved c), db))
      ↔ IsCleared s env type content db c
judge_approves_iff s env type content c db = elim (Option-cases (check s.patterns content.text)) [
  | inl passed ↦ (
    (λ e.
        let rest = (judge_author_iff s env type content c db).0 (ground arith) in
        ((check-none_iff s.patterns content.text).0 passed, rest.0, rest.1, rest.2)),
    (λ h. ground (arith, (judge_author_iff s env type content c db).1 (h.1, h.2, h.3))),
  )
  | inr (r, hit) ↦ (
    (λ e. absurd (ground arith)),
    (λ h. absurd (ground (arith, (check-none_iff s.patterns content.text).1 h.0))),
  )
]

-- A scan finds that a content is to be approved exactly when it is there, pending and cleared.
pub begin_scan_approves_iff :
    (s : Scanner) (env : Env) (type : ContentType) (id : ℕ) (db : Db) (c : Classification)
    → (begin_scan s env type id db ≡ (ok (Verdict.approved c), db)) ↔ (
        (content : Content) × (load_content type id db ≡ some content)
        × (content.moderation_status ≡ ModerationStatus.pending)
        × IsCleared s env type content db c)
unfolding begin_scan
begin_scan_approves_iff s env type id db c = elim (Option-cases (load_content type id db)) [
  | inl gone ↦ ((λ e. absurd (ground arith)), (λ h. absurd (ground (arith, h.1))))
  | inr (content, found) ↦ elim (Status-cases content.moderation_status) [
    | inr decided ↦ (
      (λ e. absurd (ground arith)),
      (λ h. let same : h.0 ≡ content = ground (arith, h.1) in absurd (ground (arith, h.2))),
    )
    | inl pending ↦ (
      (λ e.
          (content, found, pending, (judge_approves_iff s env type content c db).0 (ground arith))),
      (λ h.
          let same : h.0 ≡ content = ground (arith, h.1) in
          let cleared =
            (judge_approves_iff s env type content c db).1
              (subst (λ x. IsCleared s env type x db c) same h.3) in
          ground (arith, cleared)),
    )
  ]
]
