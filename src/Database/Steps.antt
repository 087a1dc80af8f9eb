-- ===== src/Database/Steps.antt =====
-- How a call runs when its first part has returned or thrown, and what a transaction leaves.
use homeplate.Base.{◌≡◌, refl, sym, ap, ◌∙◌, ◌⊎◌, inl, inr, arith}
use homeplate.Database.Failures.{Failure}
use homeplate.Database.Transaction.{
  Db, Tx, Result, ok, err, ◌>>=◌, with_transaction, resume, commit,
}

module _ {A B : Type 0} where
  pub >>=_ok :
      (m : Tx A) (f : A → Tx B) {a : A} {db db' : Db} → m db ≡ (ok a, db') → (m >>= f) db ≡ f a db'
  >>=_ok m f e = ap (resume f) e

  pub >>=_err :
      (m : Tx A) (f : A → Tx B) {x : Failure} {db db' : Db}
      → m db ≡ (err x, db')
      → (m >>= f) db ≡ (err x, db')
  >>=_err m f e = ap (resume f) e

module _ {A : Type 0} where
  pub Result-cases :
      (p : Result A × Db)
      → ((a : A) × (db' : Db) × (p ≡ (ok a, db')))
        ⊎ ((x : Failure) × (db' : Db) × (p ≡ (err x, db')))
  Result-cases (ok a, db') = inl (a, db', refl)
  Result-cases (err x, db') = inr (x, db', refl)

  pub with_transaction_ok :
      (m : Tx A) {a : A} {db db' : Db} → m db ≡ (ok a, db') → with_transaction m db ≡ (ok a, db')
  unfolding with_transaction
  with_transaction_ok m {db} e = ap (commit db) e

  pub with_transaction_err :
      (m : Tx A) {x : Failure} {db db' : Db}
      → m db ≡ (err x, db')
      → with_transaction m db ≡ (err x, db)
  unfolding with_transaction
  with_transaction_err m {db} e = ap (commit db) e

  -- What holds before a transaction, and after its body where that returns, holds after it.
  pub with_transaction_keeps {ℓ} :
      (P : Db → Type ℓ) (m : Tx A) (db : Db)
      → P db
      → ((a : A) (db' : Db) → m db ≡ (ok a, db') → P db')
      → P (with_transaction m db).1
  with_transaction_keeps P m db p body = elim (Result-cases (m db)) [
    | inl (a, db', e) ↦ rw (with_transaction_ok m e) (body a db' e)
    | inr (x, db', e) ↦ rw (with_transaction_err m e) p
  ]

  pub with_transaction_inv :
      (m : Tx A) {a : A} {db db' : Db} → with_transaction m db ≡ (ok a, db') → m db ≡ (ok a, db')
  unfolding with_transaction
  with_transaction_inv m e = ground arith

  -- A transaction that throws has thrown from its body, and has written nothing.
  pub with_transaction_thrown :
      (m : Tx A) {x : Failure} {db db' : Db}
      → with_transaction m db ≡ (err x, db')
      → (db' ≡ db) × (inner : Db) × (m db ≡ (err x, inner))
  unfolding with_transaction
  with_transaction_thrown m {x} {db} {db'} e = elim (Result-cases (m db)) [
    | inl (a, d, h) ↦ absurd (ground arith)
    | inr (y, d, h) ↦ (ground arith, d, ground arith)
  ]

  -- A sequence that returns has returned from both parts.
  pub >>=_inv :
      {B : Type 0} (m : Tx A) (f : A → Tx B) {b : B} {db db' : Db}
      → (m >>= f) db ≡ (ok b, db')
      → (a : A) × (mid : Db) × (m db ≡ (ok a, mid)) × (f a mid ≡ (ok b, db'))
  >>=_inv m f {b} {db} {db'} e = elim (Result-cases (m db)) [
    | inl (a, d, h) ↦ (a, d, h, sym (ap (resume f) h) ∙ e)
    | inr (y, d, h) ↦ absurd (ground arith)
  ]
