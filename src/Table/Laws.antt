-- ===== src/Table/Laws.antt =====
-- Laws of tables: what an update does to look-ups and to counts.
use homeplate.Base.{
  ℕ, ◌+◌, ◌≤◌, ◌≡◌, refl, Bool, true, false, none, some, [], ◌∷◌, ◌==◌, if◌then◌else◌, tally,
  is_some, arith,
}
use mathlib.Core.Option
use homeplate.Table.{Table, lookup, modify, update_all, count, weigh}

module _ {ℓ} {A : Type ℓ} where
  pub lookup-modify :
      (j k : ℕ) (f : A → A) (t : Table A)
      → lookup j (modify k f t) ≡ (if j == k then Option.map f (lookup j t) else lookup j t)
  lookup-modify j k f [] = ground arith
  lookup-modify j k f ((i, v) ∷ t) = ground (arith, lookup-modify j k f t)

  -- An update of one row changes a count by what it does to that row.
  pub count-modify :
      (test : A → Bool) (k : ℕ) (f : A → A) (v : A) (t : Table A)
      → lookup k t ≡ some v
      → count test (modify k f t) + tally (test v) ≡ count test t + tally (test (f v))
  count-modify test k f v [] e = ground arith
  count-modify test k f v ((i, w) ∷ t) e = ground (arith, count-modify test k f v t)

  pub modify-absent : (k : ℕ) (f : A → A) (t : Table A) → lookup k t ≡ none → modify k f t ≡ t
  modify-absent k f [] e = refl
  modify-absent k f ((i, w) ∷ t) e = ground (arith, modify-absent k f t)

  -- An update that leaves every test as it was leaves the count.
  pub count-modify_same :
      (test : A → Bool) (k : ℕ) (f : A → A) (t : Table A)
      → ((v : A) → test (f v) ≡ test v)
      → count test (modify k f t) ≡ count test t
  count-modify_same test k f [] h = refl
  count-modify_same test k f ((i, w) ∷ t) h = ground (arith, count-modify_same test k f t h, h w)

  -- A weight that leaves out the row under `k`: … AND id <> k
  abbrev pub without : ℕ → (ℕ → A → ℕ) → ℕ → A → ℕ
  without k w j v = if j == k then 0 else w j v

  pub weigh-without-modify :
      (w : ℕ → A → ℕ) (k : ℕ) (f : A → A) (t : Table A)
      → weigh (without k w) (modify k f t) ≡ weigh (without k w) t
  weigh-without-modify w k f [] = refl
  weigh-without-modify w k f ((i, v) ∷ t) = ground (arith, weigh-without-modify w k f t)

  -- No key occurs twice.
  abbrev pub IsUnique : Table A → Type 0
  IsUnique [] = Unit
  IsUnique ((j, v) ∷ t) = (is_some (lookup j t) ≡ false) × IsUnique t

  weigh-without_absent :
      (w : ℕ → A → ℕ) (k : ℕ) (t : Table A)
      → is_some (lookup k t) ≡ false
      → weigh (without k w) t ≡ weigh w t
  weigh-without_absent w k [] h = refl
  weigh-without_absent w k ((i, v) ∷ t) h = ground (arith, weigh-without_absent w k t)

  -- A total is the part of one row and the total of the others.
  pub weigh-split :
      (w : ℕ → A → ℕ) (k : ℕ) (v : A) (t : Table A)
      → IsUnique t
      → lookup k t ≡ some v
      → weigh w t ≡ w k v + weigh (without k w) t
  weigh-split w k v [] u e = cc
  weigh-split w k v ((i, x) ∷ t) u e =
      ground (arith, weigh-split w k v t u.1, weigh-without_absent w i t u.0)

  pub IsUnique-modify : (k : ℕ) (f : A → A) (t : Table A) → IsUnique t → IsUnique (modify k f t)
  IsUnique-modify k f [] u = tt
  IsUnique-modify k f ((i, x) ∷ t) u =
      ground (arith, IsUnique-modify k f t u.1, lookup-modify i k f t)

  pub weigh-ext :
      (w u : ℕ → A → ℕ) (t : Table A) → ((j : ℕ) (v : A) → w j v ≡ u j v) → weigh w t ≡ weigh u t
  weigh-ext w u [] h = refl
  weigh-ext w u ((i, v) ∷ t) h = ground (arith, h i v, weigh-ext w u t h)

  pub weigh-without-le : (w : ℕ → A → ℕ) (k : ℕ) (t : Table A) → weigh (without k w) t ≤ weigh w t
  weigh-without-le w k [] = omega arith
  weigh-without-le w k ((i, v) ∷ t) = ground (arith, weigh-without-le w k t)

  -- A change of one row that adds no weight adds none to the total.
  pub weigh-modify-le :
      (w : ℕ → A → ℕ) (k : ℕ) (f : A → A) (t : Table A)
      → ((j : ℕ) (v : A) → w j (f v) ≤ w j v)
      → weigh w (modify k f t) ≤ weigh w t
  weigh-modify-le w k f [] h = omega arith
  weigh-modify-le w k f ((i, v) ∷ t) h = ground (arith, h i v, weigh-modify-le w k f t h)

  -- The total after one row is rewritten: its new part, and the others as they were.
  pub weigh-modify :
      (w : ℕ → A → ℕ) (k : ℕ) (f : A → A) (v : A) (t : Table A)
      → IsUnique t
      → lookup k t ≡ some v
      → weigh w (modify k f t) ≡ w k (f v) + weigh (without k w) t
  weigh-modify w k f v t u e = ground (
    arith,
    weigh-split w k (f v) (modify k f t) (IsUnique-modify k f t u),
    lookup-modify k k f t,
    weigh-without-modify w k f t,
  )

  pub lookup-update_all :
      (k : ℕ) (test : A → Bool) (f : A → A) (t : Table A)
      → lookup k (update_all test f t) ≡ Option.map (λ v. if test v then f v else v) (lookup k t)
  lookup-update_all k test f [] = refl
  lookup-update_all k test f ((i, v) ∷ t) = ground (arith, lookup-update_all k test f t)

  pub count-update_all-le :
      (counted test : A → Bool) (f : A → A) (t : Table A)
      → ((v : A) → tally (counted (f v)) ≤ tally (counted v))
      → count counted (update_all test f t) ≤ count counted t
  count-update_all-le counted test f [] h = omega arith
  count-update_all-le counted test f ((i, v) ∷ t) h =
      ground (arith, h v, count-update_all-le counted test f t h)

  -- Nothing that the update matches is counted any more.
  pub count-update_all-none :
      (counted test : A → Bool) (f : A → A) (t : Table A)
      → ((v : A) → (counted v ≡ true) → test v ≡ true)
      → ((v : A) → counted (f v) ≡ false)
      → count counted (update_all test f t) ≡ 0
  count-update_all-none counted test f [] h g = refl
  count-update_all-none counted test f ((i, v) ∷ t) h g =
      ground (arith, h v, g v, count-update_all-none counted test f t h g)
