-- ===== src/Media/Sweeping.antt =====
-- What deleteForUser leaves: no row whose object could be deleted, and an error exactly when some
-- object could not.
use homeplate.Base.{
  ℕ, ◌≡◌, refl, sym, ap, ◌∙◌, Bool, true, false, ◌&&◌, ◌||◌, Option, none, some, [], ◌∷◌, ◌==◌, not,
  arith, inl, inr, Bool-cases, Option-cases, if◌then◌else◌, leb, length,
}
use mathlib.Core.Path.{subst}
use homeplate.Table.{Table, lookup, select, order_by, insert_by, remove}
use homeplate.Table.Laws.{IsUnique}
use homeplate.Table.Updates.{lookup-remove}
use homeplate.Database.{Db, Result, ok, err, MediaObject, Failure}
use homeplate.Media.Service.{
  Storage, Deletion, sweep, is_owner, is_older, list_by_owner, delete_for_user,
}

-- A listed row under the key whose object can be deleted.
abbrev pub is_deletable : Storage → ℕ → Table MediaObject → Bool
is_deletable works k [] = false
is_deletable works k ((i, m) ∷ t) = (k == i && works m.storage_key) || is_deletable works k t

-- Some listed object cannot be deleted.
abbrev pub has_failing : Storage → Table MediaObject → Bool
has_failing works [] = false
has_failing works ((i, m) ∷ t) = not (works m.storage_key) || has_failing works t

sweep-rows :
    (works : Storage) (k : ℕ) (owned t : Table MediaObject)
    → lookup k (sweep works owned t).1 ≡ (if is_deletable works k owned then none else lookup k t)
sweep-rows works k [] t = refl
sweep-rows works k ((i, m) ∷ owned) t = elim (Bool-cases (works m.storage_key)) [
  | inl deleted ↦ ground (arith, sweep-rows works k owned (remove i t), lookup-remove k i t)
  | inr failing ↦ ground (arith, sweep-rows works k owned t)
]

sweep-failing :
    (works : Storage) (owned t : Table MediaObject)
    → leb 1 (length (sweep works owned t).0.failed_ids) ≡ has_failing works owned
sweep-failing works [] t = refl
sweep-failing works ((i, m) ∷ owned) t = elim (Bool-cases (works m.storage_key)) [
  | inl deleted ↦ ground (arith, sweep-failing works owned (remove i t))
  | inr failing ↦ ground (arith, sweep-failing works owned t)
]

-- The order of a list does not matter to either.
is_deletable-insert :
    (works : Storage) (k i : ℕ) (m : MediaObject) (t : Table MediaObject)
    → is_deletable works k (insert_by is_older (i, m) t) ≡ is_deletable works k ((i, m) ∷ t)
is_deletable-insert works k i m [] = refl
is_deletable-insert works k i m ((j, n) ∷ t) = elim (Bool-cases (is_older (i, m) (j, n))) [
  | inl before ↦ ground (arith, before)
  | inr after ↦
      let rest = is_deletable-insert works k i m t in
      elim (Bool-cases (k == i && works m.storage_key)) [
        | inl here ↦ ground (arith, after, rest, here)
        | inr there ↦ ground (arith, after, rest, there)
      ]
]

is_deletable-order :
    (works : Storage) (k : ℕ) (t : Table MediaObject)
    → is_deletable works k (order_by is_older t) ≡ is_deletable works k t
is_deletable-order works k [] = refl
is_deletable-order works k ((i, m) ∷ t) =
    is_deletable-insert works k i m (order_by is_older t)
    ∙ ap (λ b. (k == i && works m.storage_key) || b) (is_deletable-order works k t)

has_failing-insert :
    (works : Storage) (i : ℕ) (m : MediaObject) (t : Table MediaObject)
    → has_failing works (insert_by is_older (i, m) t) ≡ has_failing works ((i, m) ∷ t)
has_failing-insert works i m [] = refl
has_failing-insert works i m ((j, n) ∷ t) = elim (Bool-cases (is_older (i, m) (j, n))) [
  | inl before ↦ ground (arith, before)
  | inr after ↦
      let rest = has_failing-insert works i m t in
      elim (Bool-cases (works m.storage_key)) [
        | inl deleted ↦ ground (arith, after, rest, deleted)
        | inr failing ↦ ground (arith, after, rest, failing)
      ]
]

has_failing-order :
    (works : Storage) (t : Table MediaObject)
    → has_failing works (order_by is_older t) ≡ has_failing works t
has_failing-order works [] = refl
has_failing-order works ((i, m) ∷ t) =
    has_failing-insert works i m (order_by is_older t)
    ∙ ap (λ b. not (works m.storage_key) || b) (has_failing-order works t)

-- A row of the table passes the test, and its object can be deleted.
abbrev pub passes : (MediaObject → Bool) → Storage → Option MediaObject → Bool
passes test works none = false
passes test works (some m) = test m && works m.storage_key

is_deletable-select :
    (works : Storage) (k : ℕ) (test : MediaObject → Bool) (t : Table MediaObject)
    → IsUnique t
    → is_deletable works k (select test t) ≡ passes test works (lookup k t)
is_deletable-select works k test [] u = refl
is_deletable-select works k test ((i, m) ∷ t) u =
    let rest = is_deletable-select works k test t u.1 in
    elim (Bool-cases (k == i)) [
      | inr apart ↦ ground (arith, rest, apart)
      | inl here ↦
          let e : k ≡ i = ground arith in
          elim (Option-cases (lookup i t)) [
            | inr (n, found) ↦ absurd (ground (arith, u.0, found))
            | inl none_ ↦
                let absent : passes test works (lookup k t) ≡ false =
                  ap (λ j. passes test works (lookup j t)) e ∙ ap (passes test works) none_ in
                ground (arith, rest, here, absent)
          ]
    ]

pub delete_for_user-media :
    (works : Storage) (user : ℕ) (db : Db)
    → let after = (delete_for_user works user db).1 in
      after ≡ record db { media_objects = after.media_objects }
unfolding delete_for_user
delete_for_user-media works user db =
    let n = (sweep works (list_by_owner user true db) db.media_objects).0 in
    elim (Bool-cases (leb 1 (length n.failed_ids))) [
      | inl failed ↦ ground arith
      | inr done ↦ ground arith
    ]

abbrev pub Sweeps : Storage → ℕ → ℕ → Db → Result Deletion × Db → Type 0
Sweeps works user k db p =
    (lookup k p.1.media_objects ≡ (
      if passes (is_owner user) works (lookup k db.media_objects)
      then none
      else lookup k db.media_objects))
    × ((d : Deletion) × (p.0 ≡ (
          if has_failing works (select (is_owner user) db.media_objects)
          then err Failure.media_erasure_incomplete
          else ok d)))
    × (p.1 ≡ record db { media_objects = p.1.media_objects })

-- deleteForUser removes exactly the rows of the user whose objects could be deleted, marked ones
-- included, and leaves all others; it answers that the erasure is incomplete exactly when some
-- object of the user could not be deleted. It writes no other table.
pub delete_for_user-Sweeps :
    (works : Storage) (user k : ℕ) (db : Db)
    → IsUnique db.media_objects
    → Sweeps works user k db (delete_for_user works user db)
unfolding delete_for_user list_by_owner
delete_for_user-Sweeps works user k db u =
    let owned = select (is_owner user) db.media_objects in
    let listed = order_by is_older owned in
    let rows =
      sweep-rows works k listed db.media_objects
      ∙ ap (λ b. if b then none else lookup k db.media_objects)
          (is_deletable-order works k owned
            ∙ is_deletable-select works k (is_owner user) db.media_objects u) in
    let failing = sweep-failing works listed db.media_objects ∙ has_failing-order works owned in
    let (n, rest) = sweep works listed db.media_objects in
    let d : Deletion = record {
      deleted_objects = n.deleted_objects;
      deleted_rows = n.deleted_rows;
      total = length listed;
    } in
    elim (Bool-cases (has_failing works owned)) [
      | inl incomplete ↦
          let ran : delete_for_user works user db
              ≡ (err Failure.media_erasure_incomplete, record db { media_objects = rest }) =
            ground (arith, failing, incomplete) in
          subst (λ p. Sweeps works user k db p) (sym ran)
            (rows, (d, ground (arith, incomplete)), refl)
      | inr complete ↦
          let ran : delete_for_user works user db ≡ (ok d, record db { media_objects = rest }) =
            ground (arith, failing, complete) in
          subst (λ p. Sweeps works user k db p) (sym ran)
            (rows, (d, ground (arith, complete)), refl)
    ]
