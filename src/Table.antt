-- ===== src/Table.antt =====
-- A PostgreSQL table with a primary key, as the SQL of the repositories uses it: rows under
-- their keys, the newest first. The repositories' statements are written with these.
pub mod Laws
pub mod Updates
use homeplate.Base.{
  ℕ, ◌+◌, Bool, true, false, Option, none, some, List, [], ◌∷◌, ◌==◌, if◌then◌else◌, tally,
}

abbrev pub Table {ℓ} : Type ℓ → Type ℓ
Table A = List (ℕ × A)

module _ {ℓ} {A : Type ℓ} where
  -- SELECT … WHERE id = k
  abbrev pub lookup : ℕ → Table A → Option A
  lookup k [] = none
  lookup k ((j, v) ∷ t) = if k == j then some v else lookup k t

  -- The row under `k`, rewritten.
  abbrev pub modify : ℕ → (A → A) → Table A → Table A
  modify k f [] = []
  modify k f ((j, v) ∷ t) = if k == j then (j, f v) ∷ t else (j, v) ∷ modify k f t

  -- UPDATE … SET f WHERE id = k AND test RETURNING *
  abbrev pub update_where : ℕ → (A → Bool) → (A → A) → Table A → Option A × Table A
  update_where k test f t = elim (lookup k t) [
    | none ↦ (none, t)
    | some v ↦ if test v then (some (f v), modify k f t) else (none, t)
  ]

  -- UPDATE … SET f WHERE test
  abbrev pub update_all : (A → Bool) → (A → A) → Table A → Table A
  update_all test f [] = []
  update_all test f ((j, v) ∷ t) = (j, if test v then f v else v) ∷ update_all test f t

  -- SELECT * … WHERE test
  abbrev pub select : (A → Bool) → Table A → Table A
  select test [] = []
  select test ((j, v) ∷ t) = let rest = select test t in if test v then (j, v) ∷ rest else rest

  -- SELECT count(*) … WHERE test
  abbrev pub count : (A → Bool) → Table A → ℕ
  count test [] = 0
  count test ((j, v) ∷ t) = tally (test v) + count test t

  -- SELECT sum(w) …
  abbrev pub weigh : (ℕ → A → ℕ) → Table A → ℕ
  weigh w [] = 0
  weigh w ((j, v) ∷ t) = w j v + weigh w t

  -- DELETE … WHERE id = k
  abbrev pub remove : ℕ → Table A → Table A
  remove k [] = []
  remove k ((j, v) ∷ t) = let rest = remove k t in if k == j then rest else (j, v) ∷ rest

  -- DELETE … WHERE test
  abbrev pub delete_where : (A → Bool) → Table A → Table A
  delete_where test [] = []
  delete_where test ((j, v) ∷ t) =
      let rest = delete_where test t in if test v then rest else (j, v) ∷ rest

  -- One row put before the first that the order has it before.
  abbrev pub insert_by : (ℕ × A → ℕ × A → Bool) → ℕ × A → Table A → Table A
  insert_by before row [] = row ∷ []
  insert_by before row (next ∷ t) =
      let rest = insert_by before row t in if before row next then row ∷ next ∷ t else next ∷ rest

  -- ORDER BY
  abbrev pub order_by : (ℕ × A → ℕ × A → Bool) → Table A → Table A
  order_by before [] = []
  order_by before (row ∷ t) = insert_by before row (order_by before t)
