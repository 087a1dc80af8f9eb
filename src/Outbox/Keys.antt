-- ===== src/Outbox/Keys.antt =====
-- What an enqueue does to the jobs: nothing else changes, and no dedupe key is lost.
use homeplate.Base.{
  ℕ, suc, ◌≤◌, ◌≡◌, refl, sym, ap, ◌∙◌, Bool, true, false, Option, none, some, [], ◌∷◌, ◌++◌, arith,
  inl, inr, ◌⊎◌, is_some, Option-cases,
}
use mathlib.Core.Path.{subst}
use mathlib.Core.List.{append_assoc}
use homeplate.Table.{Table}
use homeplate.Database.{
  Db, Env, Job, JobType, Payload, DedupeKey, JobStatus, Tx, ok, pure, ◌>>=◌, >>=_ok,
}
use homeplate.Outbox.Enqueue.{find_by_key, enqueue, new_job, DedupeKey-discrete}

abbrev pub has_key : DedupeKey → Table Job → Bool
has_key key t = is_some (find_by_key key t)

-- Every key of the first table is in the second.
abbrev pub KeepsKeys : Table Job → Table Job → Type 0
KeepsKeys t u = (key : DedupeKey) → has_key key t ≡ true → has_key key u ≡ true

-- A pending job of this type and payload, never tried, that is due at this instant.
abbrev pub IsDue : JobType → Payload → ℕ → Job → Type 0
IsDue type payload at j =
    (j.type ≡ type)
    × (j.payload ≡ payload)
    × (j.available_at ≡ at)
    × (j.status ≡ JobStatus.pending)
    × (j.attempt_count ≡ 0)

-- What an enqueue under the key writes.
abbrev pub IsQueued : DedupeKey → JobType → Payload → ℕ → DedupeKey → Job → Type 0
IsQueued key type payload at k j = (k ≡ key) × IsDue type payload at j

-- The second table is the first with rows put in front: no row is lost, each key still finds the
-- row that it found, and a key that finds another row finds one of the new jobs.
pub record Extends (New : DedupeKey → Job → Type 0) (t u : Table Job) : Type 0 where
  pub rows : (added : Table Job) × (u ≡ added ++ t)
  pub keys :
      (key : DedupeKey) (row : ℕ × Job)
      → find_by_key key t ≡ some row
      → find_by_key key u ≡ some row
  pub fresh :
      (key : DedupeKey) (row : ℕ × Job)
      → find_by_key key u ≡ some row
      → (find_by_key key t ≡ some row) ⊎ New key row.1

pub Extends-refl : {New : DedupeKey → Job → Type 0} (t : Table Job) → Extends New t t
Extends-refl t = record { rows = ([], refl); keys = λ k r e. e; fresh = λ k r e. inl e }

pub Extends-trans :
    {New : DedupeKey → Job → Type 0} {t u v : Table Job}
    → Extends New t u
    → Extends New u v
    → Extends New t v
Extends-trans {t = t} p q = record {
  rows =
      let (a, e) = p.rows in
      let (b, f) = q.rows in (b ++ a, f ∙ ap (λ x. b ++ x) e ∙ sym (append_assoc b a t));
  keys = λ k r e. q.keys k r (p.keys k r e);
  fresh = λ k r e. elim (q.fresh k r e) [ inl old ↦ p.fresh k r old | inr new ↦ inr new ];
}

pub Extends-mono :
    {New Other : DedupeKey → Job → Type 0} {t u : Table Job}
    → ((k : DedupeKey) (j : Job) → New k j → Other k j)
    → Extends New t u
    → Extends Other t u
Extends-mono f p = record {
  rows = p.rows;
  keys = p.keys;
  fresh = λ k r e. elim (p.fresh k r e) [ inl old ↦ inl old | inr new ↦ inr (f k r.1 new) ];
}

pub Extends-KeepsKeys :
    {New : DedupeKey → Job → Type 0} {t u : Table Job} → Extends New t u → KeepsKeys t u
Extends-KeepsKeys {t = t} p k h = elim (Option-cases (find_by_key k t)) [
  | inl missing ↦ absurd (ground (arith, h))
  | inr (row, there) ↦ ap is_some (p.keys k row there)
]

-- The call succeeds and writes to no table but the jobs, which it extends.
abbrev pub Defers {ℓ} :
    (DedupeKey → Job → Type 0) → {A : Type 0} → Tx A → Db → (A → Table Job → Type ℓ) → Type ℓ
Defers New {A} m db Post =
    (a : A) × (t : Table Job) × (n : ℕ) × (m db ≡ (ok a, record db { jobs = t; next_id = n }))
    × (db.next_id ≤ n)
    × Extends New db.jobs t
    × Post a t

pub Defers-pure {ℓ} :
    {New : DedupeKey → Job → Type 0} {A : Type 0} (Post : A → Table Job → Type ℓ) (a : A) (db : Db)
    → Post a db.jobs
    → Defers New (pure a) db Post
Defers-pure Post a db p = (a, db.jobs, db.next_id, refl, omega arith, Extends-refl db.jobs, p)

pub Defers-bind {ℓ κ} :
    {New : DedupeKey → Job → Type 0} {A B : Type 0} (m : Tx A) (f : A → Tx B) (db : Db)
    (P : A → Table Job → Type ℓ) (Q : B → Table Job → Type κ)
    → Defers New m db P
    → ((a : A) (t : Table Job) (n : ℕ)
        → P a t
        → Defers New (f a) (record db { jobs = t; next_id = n }) Q)
    → Defers New (m >>= f) db Q
Defers-bind m f db P Q (a, t, n, eq, le, keeps, p) next =
    let (b, t', n', eq', le', keeps', q) = next a t n p in
    (b, t', n', >>=_ok m f eq ∙ eq', omega arith, Extends-trans keeps keeps', q)

-- A row under a key that found none.
module _ (key : DedupeKey) (i : ℕ) (j : Job) (t : Table Job) (keyed : j.dedupe_key ≡ some key) where
  keys-cons :
      (k : DedupeKey) (row : ℕ × Job)
      → find_by_key key t ≡ none
      → find_by_key k t ≡ some row
      → find_by_key k ((i, j) ∷ t) ≡ some row
  keys-cons k row new e = elim (DedupeKey-discrete k key) [
    | yes same ↦ absurd (ground (arith, new, e, ap (λ q. find_by_key q t) same))
    | no other ↦ ground (arith, keyed, e, other)
  ]

  fresh-cons :
      (New : DedupeKey → Job → Type 0) (k : DedupeKey) (row : ℕ × Job)
      → New key j
      → find_by_key k ((i, j) ∷ t) ≡ some row
      → (find_by_key k t ≡ some row) ⊎ New k row.1
  fresh-cons New k row new e = elim (DedupeKey-discrete k key) [
    | yes same ↦
        let is : j ≡ row.1 = ground (arith, keyed, e, same) in
        inr (subst (λ q. New q row.1) (sym same) (subst (New key) is new))
    | no other ↦ inl (ground (arith, keyed, e, other))
  ]

has_key-new :
    (env : Env) (type : JobType) (payload : Payload) (key : DedupeKey) (at : Option ℕ) (i : ℕ)
    (t : Table Job)
    → has_key key ((i, new_job env type payload (some key) at) ∷ t) ≡ true
has_key-new env type payload key at i t = ground arith

-- An enqueue with a key leaves a row under that key, new or old.
pub enqueue-Defers :
    (New : DedupeKey → Job → Type 0) (env : Env) (type : JobType) (payload : Payload)
    (key : DedupeKey) (at : Option ℕ) (db : Db)
    → New key (new_job env type payload (some key) at)
    → Defers New (enqueue env type payload (some key) at) db (λ e t. has_key key t ≡ true)
unfolding enqueue
enqueue-Defers New env type payload key at db new = elim (Option-cases (find_by_key key db.jobs)) [
  | inl none_ ↦
      let j = new_job env type payload (some key) at in
      (
        record { id = db.next_id; job = j; deduped = false },
        (db.next_id, j) ∷ db.jobs,
        suc db.next_id,
        rw (none_, enqueue) refl,
        omega arith,
        record {
          rows = ((db.next_id, j) ∷ [], refl);
          keys = λ k row e. keys-cons key db.next_id j db.jobs refl k row none_ e;
          fresh = λ k row e. fresh-cons key db.next_id j db.jobs refl New k row new e;
        },
        has_key-new env type payload key at db.next_id db.jobs,
      )
  | inr (row, old) ↦ (
    record { id = row.0; job = row.1; deduped = true },
    db.jobs,
    db.next_id,
    rw (old, enqueue) refl,
    omega arith,
    Extends-refl db.jobs,
    rw old refl,
  )
]
