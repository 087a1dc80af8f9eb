-- ===== src/Media/Service.antt =====
-- src/modules/media/service.js and repo.js. The object storage is an argument: under which keys
-- deleteByKey succeeds at the time of the call; it answers the same for a key with no object.
use text.Mathlib.Text.{◌==◌ as str_eq}
use homeplate.Base.{
  ℕ, suc, ◌+◌, Bool, true, false, not, ◌&&◌, ◌||◌, Option, none, some, List, [], ◌∷◌, ◌==◌, map,
  leb, ltb, if◌then◌else◌, String, is_some, tally, length,
}
use homeplate.Table.{Table, lookup, select, order_by, remove, update_where}
use homeplate.Database.{Db, Env, Tx, ok, err, MediaObject, MediaKind, Failure}

abbrev pub new_media :
    Env
    → (owner : ℕ) → String
    → MediaKind
    → (entity : Option ℕ) → (content_type : Option String) → (size : Option ℕ) → MediaObject
new_media env owner key kind entity content_type size = record {
  owner_user_id = owner;
  entity_type = kind;
  entity_id = entity;
  storage_key = key;
  content_type = content_type;
  size_bytes = size;
  deleted_at = none;
  created_at = env.now;
}

-- A row under the key: the constraint media_objects_storage_key_key.
abbrev pub has_key : String → Table MediaObject → Bool
has_key key [] = false
has_key key ((i, m) ∷ t) = str_eq m.storage_key key || has_key key t

abbrev pub inserted : MediaObject → Db → Db
inserted m db = record db {
  media_objects = (db.next_id, m) ∷ db.media_objects;
  next_id = suc db.next_id;
}

-- attach, with assertValidKey as an argument. PostgreSQL checks the unique index on insert and the
-- reference to the owner at the end of the statement.
unfoldable pub attach :
    (is_valid_key : String → Bool)
    → Env
    → (owner : ℕ) → String
    → MediaKind
    → Option ℕ
    → Option String
    → Option ℕ
    → Tx (ℕ × MediaObject)
attach is_valid_key env owner key kind entity content_type size db =
    let m = new_media env owner key kind entity content_type size in
    if not (is_valid_key key)
    then (err Failure.validation_failed, db)
    else if has_key key db.media_objects
    then (err Failure.media_key_exists, db)
    else if not (is_some (lookup owner db.users))
    then (err Failure.media_owner_not_found, db)
    else (ok (db.next_id, m), inserted m db)

abbrev pub is_owner : ℕ → MediaObject → Bool
is_owner user m = m.owner_user_id == user

abbrev pub is_live_of : ℕ → MediaObject → Bool
is_live_of user m = is_owner user m && not (is_some m.deleted_at)

-- ORDER BY created_at, id
abbrev pub is_older : ℕ × MediaObject → ℕ × MediaObject → Bool
is_older (i, m) (j, n) =
    if m.created_at == n.created_at then leb i j else ltb m.created_at n.created_at

unfoldable pub list_by_owner : (user : ℕ) → (include_deleted : Bool) → Db → Table MediaObject
list_by_owner user include_deleted db =
    order_by is_older
      (select (if include_deleted then is_owner user else is_live_of user) db.media_objects)

-- list, and listKeys
unfoldable pub list_media : ℕ → Db → Table MediaObject
list_media user = list_by_owner user false

unfoldable pub list_keys : ℕ → Db → List String
list_keys user db = map (λ (row : ℕ × MediaObject). row.1.storage_key) (list_media user db)

-- findOwnedById
unfoldable pub find_owned_by_id : (user id : ℕ) → Db → Option MediaObject
find_owned_by_id user id db = elim (lookup id db.media_objects) [
  | none ↦ none
  | some m ↦ if is_owner user m then some m else none
]

abbrev is_unmarked : MediaObject → Bool
is_unmarked m = not (is_some m.deleted_at)

-- markDeleted: the row leaves every read path, and its object waits for the erasure.
unfoldable pub mark_media_deleted : Env → ℕ → Tx Bool
mark_media_deleted env id db =
    let (row, rows) =
      update_where id is_unmarked (λ (m : MediaObject). record m { deleted_at = some env.now })
        db.media_objects in
    (ok (is_some row), record db { media_objects = rows })

abbrev pub Storage : Type 0
Storage = (key : String) → Bool

pub record Swept : Type 0 where
  pub deleted_objects : ℕ
  pub deleted_rows : ℕ
  pub failed_ids : List ℕ

-- Whether removeById removes a row.
abbrev pub removes : ℕ → Table MediaObject → ℕ
removes i t = tally (is_some (lookup i t))

-- The loop: a row goes when its object is gone, and stays when deleteByKey throws.
abbrev pub sweep : Storage → Table MediaObject → Table MediaObject → Swept × Table MediaObject
sweep works [] t = (record { deleted_objects = 0; deleted_rows = 0; failed_ids = [] }, t)
sweep works ((i, m) ∷ owned) t =
    let (n, rest) = sweep works owned (if works m.storage_key then remove i t else t) in
    if works m.storage_key
    then (
      record n {
        deleted_objects = suc n.deleted_objects;
        deleted_rows = removes i t + n.deleted_rows;
      },
      rest,
    )
    else (record n { failed_ids = i ∷ n.failed_ids }, rest)

pub record Deletion : Type 0 where
  pub deleted_objects : ℕ
  pub deleted_rows : ℕ
  pub total : ℕ

unfoldable pub delete_for_user : Storage → (user : ℕ) → Tx Deletion
delete_for_user works user db =
    let owned = list_by_owner user true db in
    let (n, rest) = sweep works owned db.media_objects in
    let after : Db = record db { media_objects = rest } in
    if leb 1 (length n.failed_ids) then (err Failure.media_erasure_incomplete, after) else (
      ok (record {
        deleted_objects = n.deleted_objects;
        deleted_rows = n.deleted_rows;
        total = length owned;
      }),
      after,
    )
