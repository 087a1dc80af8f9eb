-- ===== src/Table/Updates.antt =====
-- Rows after an update, read backwards: which rows of the table before they come from.
use homeplate.Base.{
  ℕ, ◌≡◌, refl, Bool, true, false, none, some, [], ◌∷◌, if◌then◌else◌, arith, inl, inr, ◌⊎◌, ◌==◌,
  Bool-cases, Option-cases, ==_refl,
}
use homeplate.Table.{Table, lookup, modify, update_all, update_where, delete_where, count, remove}
use homeplate.Table.Laws.{lookup-modify, modify-absent, lookup-update_all}

module _ {ℓ} {A : Type ℓ} where
  -- An update that takes any row is that of the row under the key.
  pub update_where-modify :
      (k : ℕ) (f : A → A) (t : Table A) → (update_where k (λ _. true) f t).1 ≡ modify k f t
  update_where-modify k f t = elim (Option-cases (lookup k t)) [
    | inl gone ↦ ground (arith, modify-absent k f t gone)
    | inr (v, found) ↦ ground arith
  ]

  -- A row after an update of all that pass a test is one from before, rewritten if it passed.
  pub lookup-update_all_inv :
      (k : ℕ) (test : A → Bool) (f : A → A) (t : Table A) {v : A}
      → lookup k (update_all test f t) ≡ some v
      → (u : A) × (lookup k t ≡ some u) × (v ≡ (if test u then f u else u))
  lookup-update_all_inv k test f t e = elim (Option-cases (lookup k t)) [
    | inl gone ↦ absurd (ground (arith, lookup-update_all k test f t))
    | inr (u, found) ↦ (u, found, ground (arith, lookup-update_all k test f t))
  ]

  pub lookup-modify_inv :
      (k : ℕ) (f : A → A) (t : Table A) {v : A}
      → lookup k (modify k f t) ≡ some v
      → (u : A) × (lookup k t ≡ some u) × (v ≡ f u)
  lookup-modify_inv k f t e = elim (Option-cases (lookup k t)) [
    | inl gone ↦ absurd (ground (arith, lookup-modify k k f t, ==_refl k))
    | inr (u, found) ↦ (u, found, ground (arith, lookup-modify k k f t, ==_refl k))
  ]

  pub lookup-modify_hit :
      (k : ℕ) (f : A → A) (t : Table A) {v : A}
      → lookup k t ≡ some v
      → lookup k (modify k f t) ≡ some (f v)
  lookup-modify_hit k f t e = ground (arith, lookup-modify k k f t, ==_refl k)

  -- A row after an update under one key is one from before, as it was or rewritten.
  pub lookup-modify_cases :
      (j k : ℕ) (f : A → A) (t : Table A) {v : A}
      → lookup j (modify k f t) ≡ some v
      → (u : A) × (lookup j t ≡ some u) × ((v ≡ u) ⊎ (v ≡ f u))
  lookup-modify_cases j k f t e = elim (Option-cases (lookup j t)) [
    | inl gone ↦ absurd (ground (arith, lookup-modify j k f t))
    | inr (u, found) ↦ elim (Bool-cases (j == k)) [
      | inl same ↦ (u, found, inr (ground (arith, lookup-modify j k f t)))
      | inr other ↦ (u, found, inl (ground (arith, lookup-modify j k f t)))
    ]
  ]

  pub count-delete_where : (test : A → Bool) (t : Table A) → count test (delete_where test t) ≡ 0
  count-delete_where test [] = refl
  count-delete_where test ((i, v) ∷ t) = ground (arith, count-delete_where test t)

  pub lookup-remove :
      (j k : ℕ) (t : Table A) → lookup j (remove k t) ≡ (if j == k then none else lookup j t)
  lookup-remove j k [] = ground arith
  lookup-remove j k ((i, v) ∷ t) = ground (arith, lookup-remove j k t)

  -- What a function reads of the rows.
  abbrev pub view {κ} : {B : Type κ} → (A → B) → Table A → Table B
  view g [] = []
  view g ((j, v) ∷ t) = (j, g v) ∷ view g t

  -- An update that the function does not see.
  pub view-update_all {κ} :
      {B : Type κ} (g : A → B) (test : A → Bool) (f : A → A) (t : Table A)
      → ((v : A) → g (f v) ≡ g v)
      → view g (update_all test f t) ≡ view g t
  view-update_all g test f [] same = refl
  view-update_all g test f ((j, v) ∷ t) same = elim (Bool-cases (test v)) [
    | inl hit ↦ ground (arith, same v, view-update_all g test f t same)
    | inr miss ↦ ground (arith, view-update_all g test f t same)
  ]

  -- An update of all that pass a test leaves the others alone.
  pub delete_where-update_all :
      (test : A → Bool) (f : A → A) (t : Table A)
      → ((v : A) → test v ≡ true → test (f v) ≡ true)
      → delete_where test (update_all test f t) ≡ delete_where test t
  delete_where-update_all test f [] keeps = refl
  delete_where-update_all test f ((j, v) ∷ t) keeps = elim (Bool-cases (test v)) [
    | inl hit ↦ ground (arith, keeps v hit, delete_where-update_all test f t keeps)
    | inr miss ↦ ground (arith, delete_where-update_all test f t keeps)
  ]

  pub remove-modify : (k : ℕ) (f : A → A) (t : Table A) → remove k (modify k f t) ≡ remove k t
  remove-modify k f [] = refl
  remove-modify k f ((j, v) ∷ t) = ground (arith, remove-modify k f t)

  -- An update that changes nothing of the row under its key changes nothing.
  pub modify-fixed :
      (k : ℕ) (f : A → A) (t : Table A)
      → ((v : A) → lookup k t ≡ some v → f v ≡ v)
      → modify k f t ≡ t
  modify-fixed k f [] fixed = refl
  modify-fixed k f ((j, v) ∷ t) fixed = elim (Bool-cases (k == j)) [
    | inl here ↦ ground (arith, fixed v)
    | inr apart ↦ ground (arith, modify-fixed k f t (λ u e. fixed u (ground arith)))
  ]

  pub view-modify {κ} :
      {B : Type κ} (g : A → B) (k : ℕ) (f : A → A) (t : Table A)
      → ((v : A) → g (f v) ≡ g v)
      → view g (modify k f t) ≡ view g t
  view-modify g k f [] same = refl
  view-modify g k f ((j, v) ∷ t) same = elim (Bool-cases (k == j)) [
    | inl hit ↦ ground (arith, same v)
    | inr miss ↦ ground (arith, view-modify g k f t same)
  ]

  -- Tables of one view have rows under the same keys.
  pub lookup-view {κ} :
      {B : Type κ} (g : A → B) (k : ℕ) (t u : Table A) {v : A}
      → view g t ≡ view g u
      → lookup k u ≡ some v
      → (w : A) × (lookup k t ≡ some w) × (g w ≡ g v)
  lookup-view g k [] [] e found = absurd (ground (arith, found))
  lookup-view g k [] (row ∷ u) e found = absurd (ground (arith, e))
  lookup-view g k (row ∷ t) [] e found = absurd (ground (arith, e))
  lookup-view g k ((i, a) ∷ t) ((j, b) ∷ u) e found = elim (Bool-cases (k == j)) [
    | inl hit ↦ (a, ground (arith, e, hit), ground (arith, e, hit, found))
    | inr miss ↦
        let (w, there, same) =
          lookup-view g k t u (ground (arith, e)) (ground (arith, found, miss)) in
        (w, ground (arith, e, miss, there), same)
  ]

  -- Nothing that is counted is in a table that counts none.
  pub count-none :
      (test : A → Bool) (k : ℕ) (t : Table A) {v : A}
      → count test t ≡ 0
      → lookup k t ≡ some v
      → test v ≡ false
  count-none test k [] zero_ found = absurd (ground (arith, found))
  count-none test k ((j, u) ∷ t) zero_ found = elim (Bool-cases (test u)) [
    | inl hit ↦ absurd (ground (arith, zero_, hit))
    | inr miss ↦ elim (Bool-cases (k == j)) [
      | inl here ↦ ground (arith, found, here, miss)
      | inr apart ↦ count-none test k t (ground (arith, zero_, miss)) (ground (arith, found, apart))
    ]
  ]
