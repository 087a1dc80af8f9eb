-- ===== src/Listings/Change.antt =====
-- updateListing as a whole: what it writes, and that it keeps the seats right.
use mathlib.Core.Path.{subst}
use homeplate.Base.{
  ℕ, ◌+◌, ◌≤◌, ◌≡◌, refl, sym, true, false, some, [], ◌∷◌, arith, inl, inr, ◌⊎◌, Option-cases,
  Bool-cases,
}
use homeplate.Table.{Table, lookup, modify, count}
use homeplate.Table.Laws.{lookup-modify}
use homeplate.Database.{
  Db, Env, Listing, Booking, Job, ok, Result-cases, with_transaction_keeps, with_transaction,
}
use homeplate.Bookings.Seats.{IsSound, seats_held, holds_seat}
use homeplate.Listings.Mehko.{Locale, is_cancelled, assert_within_caps}
use homeplate.Listings.Service.{active_on, or_else}
use homeplate.Listings.Update.{
  Patch, ColumnPatch, column_patch, changes_any, is_below, apply_patch, write_patch,
  update_listing_body, update_listing,
}
use homeplate.Listings.Caps.{assert_within_caps-Fits}
use homeplate.Listings.Creation.{catch_keeps}
use homeplate.Listings.Rewrite.{write_patch_ok}

-- How an update can succeed: with no column that differs, or with the write of those that do.
abbrev pub Succeeds : Env → Locale → ℕ → ℕ → Patch → Db → Listing → Db → Type 0
Succeeds env caps user id patch db r db' =
    (l : Listing) × (day : ℕ) × (lookup id db.listings ≡ some l)
    × (l.host_id ≡ user)
    × (is_cancelled l.status ≡ false)
    × (assert_within_caps caps l.host_id (or_else patch.scheduled_start l.scheduled_start)
          (or_else patch.seat_capacity l.seat_capacity) (some id) db
        ≡ (ok day, db))
    × (is_below (column_patch patch l).seat_capacity (count (active_on id) db.bookings) ≡ false)
    × (((changes_any (column_patch patch l) ≡ false) × (r ≡ l) × (db' ≡ db))
        ⊎ ((changes_any (column_patch patch l) ≡ true)
            × (write_patch env id (column_patch patch l) day (count (active_on id) db.bookings) l db
                ≡ (ok r, db'))))

pub body-Succeeds :
    (env : Env) (caps : Locale) (user id : ℕ) (patch : Patch) (db : Db) (r : Listing) (db' : Db)
    → update_listing_body env caps user id patch db ≡ (ok r, db')
    → Succeeds env caps user id patch db r db'
unfolding update_listing_body
body-Succeeds env caps user id patch db r db' e = elim (Option-cases (lookup id db.listings)) [
  | inl missing ↦ absurd (ground arith)
  | inr (l, found) ↦
      let mine : l.host_id ≡ user = ground (arith, found) in
      let live : is_cancelled l.status ≡ false = ground (arith, found) in
      let start = or_else patch.scheduled_start l.scheduled_start in
      let seats = or_else patch.seat_capacity l.seat_capacity in
      let c = column_patch patch l in
      elim (Result-cases (assert_within_caps caps l.host_id start seats (some id) db)) [
        | inr (x, mid, refused) ↦ absurd (ground (arith, found, mine, live, refused))
        | inl (day, mid, checked) ↦
            let (same, _, _, _) =
              assert_within_caps-Fits caps l.host_id start seats (some id) db checked in
            let fits : assert_within_caps caps l.host_id start seats (some id) db ≡ (ok day, db) =
              subst
                (λ (m : Db).
                  assert_within_caps caps l.host_id start seats (some id) db ≡ (ok day, m))
                same checked in
            let room : is_below c.seat_capacity (count (active_on id) db.bookings) ≡ false =
              ground (arith, found, mine, live, fits) in
            (
              l,
              day,
              found,
              mine,
              live,
              fits,
              room,
              elim (Bool-cases (changes_any c)) [
                | inl some_change ↦
                    inr (some_change, ground (arith, found, mine, live, fits, room, some_change))
                | inr no_change ↦ inl (
                  no_change,
                  ground (arith, found, mine, live, fits, room, no_change),
                  ground (arith, found, mine, live, fits, room, no_change),
                )
              ],
            )
      ]
]

-- The bookings that updateListing counts are those that hold a seat.
active-held : (id : ℕ) (t : Table Booking) → count (active_on id) t ≡ count (holds_seat id) t
active-held id [] = refl
active-held id ((i, b) ∷ t) = ground (arith, active-held id t)

-- The seats of the row that a patch writes fit its capacity, beside those that are held.
patched_seats :
    (c : ColumnPatch) (day active held : ℕ) (l : Listing)
    → active ≡ held
    → is_below c.seat_capacity active ≡ false
    → l.seats_remaining + held ≤ l.seat_capacity
    → (apply_patch c day active l).seats_remaining + held
      ≤ (apply_patch c day active l).seat_capacity
unfolding apply_patch
patched_seats c day active held l same room fit = elim (Option-cases c.seat_capacity) [
  | inl none_set ↦ ground (arith, none_set)
  | inr (capacity, set) ↦ ground (arith, set)
]

rewritten-IsSound :
    (id : ℕ) (l row : Listing) (db : Db) (jobs : Table Job) (next : ℕ)
    → IsSound db
    → lookup id db.listings ≡ some l
    → row.seats_remaining + seats_held id db ≤ row.seat_capacity
    → db.next_id ≤ next
    → IsSound
        (record db { listings = modify id (λ _. row) db.listings; jobs = jobs; next_id = next })
rewritten-IsSound id l row db jobs next v found fit le = record {
  seats = λ k x ex. ground (arith, lookup-modify k id (λ _. row) db.listings, found, v.seats k x);
  listing_ids = λ k x ex. ground (
    arith,
    lookup-modify k id (λ _. row) db.listings,
    found,
    v.listing_ids k x,
    v.listing_ids id l found,
  );
  unheld = λ k h. v.unheld k (omega arith);
  confirmed = v.confirmed;
}

-- From a sound state, a call of updateListing leaves a sound state, whether it succeeds or not: a new
-- capacity leaves free exactly what the bookings that hold a seat do not take.
pub update_listing-IsSound :
    (env : Env) (caps : Locale) (user id : ℕ) (patch : Patch) (db : Db)
    → IsSound db
    → IsSound (update_listing env caps user id patch db).1
unfolding update_listing
update_listing-IsSound env caps user id patch db v =
    let body = update_listing_body env caps user id patch in
    catch_keeps IsSound (with_transaction body) db (
      with_transaction_keeps IsSound body db v λ r db' e.
        let (l, day, found, mine, live, fits, room, how) =
          body-Succeeds env caps user id patch db r db' e in
        elim how [
          | inl (_, _, same) ↦ subst IsSound (sym same) v
          | inr (_, wrote) ↦
              let c = column_patch patch l in
              let active = count (active_on id) db.bookings in
              let (jobs, next, _, after, le, _, _) =
                write_patch_ok env id c day active l db r db' wrote in
              let row = apply_patch c day active l in
              subst IsSound (sym after) (
                rewritten-IsSound id l row db jobs next v found
                  (patched_seats c day active (seats_held id db) l (active-held id db.bookings) room
                    (v.seats id l found))
                  le)
        ])
