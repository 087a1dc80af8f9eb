-- ===== src/System/Sound.antt =====
-- Calls that keep the seats sound, however they end, and their composition.
use homeplate.Base.{
  ℕ, ◌≡◌, ◌≤◌, sym, Bool, true, false, if◌then◌else◌, Option, none, some, arith, inl, inr,
  Bool-cases,
}
use mathlib.Core.Path.{subst}
use homeplate.Table.{update_all}
use homeplate.Table.Updates.{lookup-update_all_inv}
use homeplate.Database.{
  Db, Env, Tx, Result-cases, ◌>>=◌, ◌>>◌, some_or_throw, with_transaction, Failure, JobType,
  Payload, DedupeKey, >>=_ok, >>=_err, with_transaction_ok, with_transaction_err,
}
use homeplate.Outbox.Enqueue.{enqueue}
use homeplate.Outbox.Keys.{enqueue-Defers}
use homeplate.Bookings.Seats.{IsSound, same_tables-IsSound, with_jobs-IsSound}
use homeplate.Privacy.Erasing.{is_hosted_by, scrubbed}

-- What the call leaves is sound when what it finds is.
abbrev pub KeepsSound : {A : Type 0} → Tx A → Type 0
KeepsSound m = (db : Db) → IsSound db → IsSound (m db).1

module _ {A : Type 0} where
  pub bind-KeepsSound :
      {B : Type 0} (m : Tx A) (f : A → Tx B)
      → KeepsSound m
      → ((a : A) → KeepsSound (f a))
      → KeepsSound (m >>= f)
  bind-KeepsSound m f first rest db v = elim (Result-cases (m db)) [
    | inl (a, mid, e) ↦
        subst (λ p. IsSound p.1) (sym (>>=_ok m f e))
          (rest a mid (subst (λ p. IsSound p.1) e (first db v)))
    | inr (x, mid, e) ↦
        subst (λ p. IsSound p.1) (sym (>>=_err m f e)) (subst (λ p. IsSound p.1) e (first db v))
  ]

  pub then-KeepsSound :
      {B : Type 0} (m : Tx A) (n : Tx B) → KeepsSound m → KeepsSound n → KeepsSound (m >> n)
  then-KeepsSound m n first second = bind-KeepsSound m (λ _. n) first (λ _. second)

  -- A call that writes neither listings nor bookings, and takes back no id.
  pub apart-KeepsSound :
      (m : Tx A)
      → ((db : Db)
          → ((m db).1.listings ≡ db.listings)
            × ((m db).1.bookings ≡ db.bookings)
            × (db.next_id ≤ (m db).1.next_id))
      → KeepsSound m
  apart-KeepsSound m same db v =
      let (listings, bookings, next) = same db in
      same_tables-IsSound db (m db).1 listings bookings next v

  pub transaction-KeepsSound : (m : Tx A) → KeepsSound m → KeepsSound (with_transaction m)
  transaction-KeepsSound m body db v = elim (Result-cases (m db)) [
    | inl (a, mid, e) ↦
        subst (λ p. IsSound p.1) (sym (with_transaction_ok m e))
          (subst (λ p. IsSound p.1) e (body db v))
    | inr (x, mid, e) ↦ subst (λ p. IsSound p.1) (sym (with_transaction_err m e)) v
  ]

  pub some_or_throw-KeepsSound : (o : Option A) (x : Failure) → KeepsSound (some_or_throw o x)
  some_or_throw-KeepsSound none x db v = v
  some_or_throw-KeepsSound (some a) x db v = v

  pub if-KeepsSound :
      (b : Bool) (m n : Tx A) → KeepsSound m → KeepsSound n → KeepsSound (if b then m else n)
  if-KeepsSound true m n first second = first
  if-KeepsSound false m n first second = second

pub enqueue-KeepsSound :
    (env : Env) (type : JobType) (payload : Payload) (key : DedupeKey) (at : Option ℕ)
    → KeepsSound (enqueue env type payload (some key) at)
enqueue-KeepsSound env type payload key at db v =
    let (_, jobs, next, e, le, _, _) =
      enqueue-Defers (λ k j. Unit {0}) env type payload key at db tt in
    subst (λ p. IsSound p.1) (sym e) (with_jobs-IsSound jobs next le v)

-- Listings that are scrubbed keep their seats.
pub scrubbed-IsSound :
    (user : ℕ) (db : Db)
    → IsSound db
    → IsSound (record db { listings = update_all (is_hosted_by user) scrubbed db.listings })
scrubbed-IsSound user db v = record {
  seats = λ k l e.
      let (before, found, is) =
        lookup-update_all_inv k (is_hosted_by user) scrubbed db.listings e in
      elim (Bool-cases (is_hosted_by user before)) [
        | inl mine ↦ ground (arith, v.seats k before found, is, mine)
        | inr other ↦ ground (arith, v.seats k before found, is, other)
      ];
  listing_ids = λ k l e.
      let (before, found, _) = lookup-update_all_inv k (is_hosted_by user) scrubbed db.listings e in
      v.listing_ids k before found;
  unheld = v.unheld;
  confirmed = v.confirmed;
}
