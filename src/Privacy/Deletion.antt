-- ===== src/Privacy/Deletion.antt =====
-- The request of a deletion: the mark, the open request and its job are one, and a repeat adds
-- nothing.
use homeplate.Base.{
  ℕ, suc, ◌≡◌, refl, Bool, true, false, none, some, [], ◌∷◌, arith, inl, inr, Bool-cases,
  Option-cases, ==_refl,
}
use homeplate.Table.{Table, lookup, modify, select}
use homeplate.Table.Laws.{IsUnique}
use homeplate.Database.{Db, Env, ok, DataRequest, RequestKind}
use homeplate.Privacy.Requests.{
  deleted, find_open_request, newest, is_newer, is_open_for, create_request, new_request, no_detail,
}
use homeplate.Privacy.Service.{Windows, add_days, open_erasure_request}

newest-none : (t : Table DataRequest) → newest t ≡ none → t ≡ []
newest-none [] e = refl
newest-none (row ∷ t) e = elim (Option-cases (newest t)) [
  | inl empty ↦ absurd (ground (arith, e))
  | inr (other, some_) ↦ elim (Bool-cases (is_newer row other)) [
    | inl newer ↦ absurd (ground (arith, e))
    | inr older ↦ absurd (ground (arith, e))
  ]
]

-- What is found is a row that passes the test.
newest-select :
    (test : DataRequest → Bool) (t : Table DataRequest) {i : ℕ} {r : DataRequest}
    → IsUnique t
    → newest (select test t) ≡ some (i, r)
    → (lookup i t ≡ some r) × (test r ≡ true)
newest-select test [] u e = absurd (ground (arith, e))
newest-select test ((j, v) ∷ t) {i = i} {r = r} u e = elim (Bool-cases (test v)) [
  | inr miss ↦ ground (arith, newest-select test t {i = i} {r = r} u.1 (ground (arith, e)))
  | inl hit ↦ elim (Option-cases (newest (select test t))) [
    | inl empty ↦ ground (arith, e, ==_refl j)
    | inr (other, found) ↦ elim (Bool-cases (is_newer (j, v) other)) [
      | inl newer ↦ ground (arith, e, ==_refl j)
      | inr older ↦ ground (arith, newest-select test t {i = i} {r = r} u.1 (ground (arith, e)))
    ]
  ]
]

module _ (env : Env) (w : Windows) (user : ℕ) where
  abbrev pub marked : Db → Db
  marked db = record db { users = modify user (deleted env.date_now) db.users }

  -- The request that the erasure is due for, and where it is in the table of after.
  abbrev pub Opens : Db → ℕ × DataRequest → Table DataRequest → Type 0
  Opens db row requests =
      (lookup row.0 requests ≡ some row.1)
      × (is_open_for user RequestKind.erasure row.1 ≡ true)
      × (newest (select (is_open_for user RequestKind.erasure) requests) ≡ some row)

  abbrev asked : Env → DataRequest
  asked e =
      new_request e user RequestKind.erasure (add_days e.date_now w.erasure_days)
        (record no_detail { requested_at = some e.date_now })

  pub open_erasure_request_ok :
      (db : Db)
      → IsUnique db.data_requests
      → (row : ℕ × DataRequest) × (was : Bool) × (requests : Table DataRequest) × (next : ℕ)
        × (open_erasure_request env user (add_days env.date_now w.erasure_days) db
            ≡ (ok (row, was), record db { data_requests = requests; next_id = next }))
        × Opens db row requests
  unfolding open_erasure_request find_open_request create_request
  open_erasure_request_ok db u =
      let test = is_open_for user RequestKind.erasure in
      elim (Option-cases (newest (select test db.data_requests))) [
        | inr (row, found) ↦
            let (there, is) = newest-select test db.data_requests u found in
            (row, true, db.data_requests, db.next_id, ground (arith, found), (there, is, found))
        | inl gone ↦
            let empty = newest-none (select test db.data_requests) gone in
            let r = asked env in
            (
              (db.next_id, r),
              false,
              (db.next_id, r) ∷ db.data_requests,
              suc db.next_id,
              ground (arith, gone),
              (
                ground (arith, ==_refl db.next_id),
                ground (arith, ==_refl user),
                ground (arith, empty, ==_refl user),
              ),
            )
      ]
