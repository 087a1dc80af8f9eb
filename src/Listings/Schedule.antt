-- ===== src/Listings/Schedule.antt =====
-- updateListing and the calendar: a listing stands under the local date of its start, and within
-- the caps of that date.
use mathlib.Core.Path.{subst}
use homeplate.Base.{
  ℕ, ◌≡◌, refl, sym, ap, ◌∙◌, true, false, Option, none, some, arith, inl, inr, ◌⊎◌, Bool-cases,
  ◌==◌, is_some,
}
use homeplate.Table.{Table, lookup, modify, count, weigh}
use homeplate.Table.Laws.{lookup-modify}
use homeplate.Database.{Db, Env, Listing, with_transaction_keeps, with_transaction}
use homeplate.Listings.Mehko.{Locale}
use homeplate.Listings.Service.{active_on, or_else}
use homeplate.Listings.Update.{
  Patch, changed, column_patch, apply_patch, update_listing_body, update_listing,
}
use homeplate.Listings.Caps.{IsCapped, Fits, assert_within_caps-Fits, fits-IsCapped}
use homeplate.Listings.Creation.{catch_keeps}
use homeplate.Listings.Rewrite.{write_patch_ok}
use homeplate.Listings.Caps.{day_listings, day_seats, week_seats, week_room}
use homeplate.Table.Laws.{IsUnique-modify, weigh-modify, weigh-without-le, without}
use homeplate.Listings.Change.{body-Succeeds}

-- Every listing stands under the local date of its start.
abbrev pub IsDated : Locale → Table Listing → Type 0
IsDated caps t =
    (k : ℕ) (l : Listing)
    → lookup k t ≡ some l
    → l.local_date ≡ caps.local_date_for l.scheduled_start

changed_number :
    (new : Option ℕ) (old : ℕ)
    → (or_else (changed ◌==◌ new old) old ≡ or_else new old)
      × ((is_some (changed ◌==◌ new old) ≡ true)
          ⊎ ((is_some (changed ◌==◌ new old) ≡ false) × (or_else new old ≡ old)))
changed_number none old = (refl, inr (refl, refl))
changed_number (some v) old = elim (Bool-cases (v == old)) [
  | inl same ↦ (ground (arith, same), inr (ground (arith, same), ground (arith, same)))
  | inr differs ↦ (ground (arith, differs), inl (ground (arith, differs)))
]

patched_start :
    (caps : Locale) (patch : Patch) (active : ℕ) (l : Listing)
    → l.local_date ≡ caps.local_date_for l.scheduled_start
    → let start = or_else patch.scheduled_start l.scheduled_start in
      let row = apply_patch (column_patch patch l) (caps.local_date_for start) active l in
      (row.scheduled_start ≡ start)
      × (row.local_date ≡ caps.local_date_for start)
      × (row.seat_capacity ≡ or_else patch.seat_capacity l.seat_capacity)
unfolding apply_patch column_patch
patched_start caps patch active l dated =
    let (start, moved) = changed_number patch.scheduled_start l.scheduled_start in
    let (seats, _) = changed_number patch.seat_capacity l.seat_capacity in
    (
      start,
      elim moved [
        | inl has_moved ↦ ground (arith, has_moved)
        | inr (stays, kept) ↦ ground (arith, stays, kept, dated)
      ],
      seats,
    )

rewritten-IsCapped :
    (caps : Locale) (id : ℕ) (l row : Listing) (t : Table Listing)
    → IsCapped caps t
    → lookup id t ≡ some l
    → Fits caps row.host_id row.local_date row.seat_capacity (λ w. weigh (without id w) t)
    → IsCapped caps (modify id (λ _. row) t)
rewritten-IsCapped caps id l row t c found fits =
    fits-IsCapped caps (modify id (λ _. row) t) id row (λ w. weigh (without id w) t)
      (IsUnique-modify id (λ _. row) t c.keys) (λ w. weigh-modify w id (λ _. row) l t c.keys found)
      fits
      (λ host day.
        omega (arith, weigh-without-le (day_listings host day) id t, c.daily_listings host day))
      (λ host day.
        omega (arith, weigh-without-le (day_seats host day) id t, c.daily_meals host day))
      (λ host day h.
        omega (arith, weigh-without-le (week_seats host day) id t, week_room c host day h))

rewritten-IsDated :
    (caps : Locale) (id : ℕ) (l row : Listing) (t : Table Listing)
    → IsDated caps t
    → lookup id t ≡ some l
    → row.local_date ≡ caps.local_date_for row.scheduled_start
    → IsDated caps (modify id (λ _. row) t)
rewritten-IsDated caps id l row t dated found h k x ex = elim (Bool-cases (k == id)) [
  | inl hit ↦
      let same : row ≡ x = ground (arith, lookup-modify k id (λ _. row) t, found) in
      subst (λ (y : Listing). y.local_date ≡ caps.local_date_for y.scheduled_start) same h
  | inr miss ↦ dated k x (ground (arith, lookup-modify k id (λ _. row) t))
]

patched-IsCapped :
    (caps : Locale) (patch : Patch) (active id : ℕ) (l : Listing) (t : Table Listing)
    → IsDated caps t
    → IsCapped caps t
    → lookup id t ≡ some l
    → let start = or_else patch.scheduled_start l.scheduled_start in
      let after =
        modify id
          (λ _. apply_patch (column_patch patch l) (caps.local_date_for start) active l)
          t in
      Fits caps l.host_id
        (caps.local_date_for start)
        (or_else patch.seat_capacity l.seat_capacity)
        (λ w. weigh (without id w) t)
      → IsCapped caps after × IsDated caps after
unfolding apply_patch
patched-IsCapped caps patch active id l t dated c found fits =
    let start = or_else patch.scheduled_start l.scheduled_start in
    let date = caps.local_date_for start in
    let row = apply_patch (column_patch patch l) date active l in
    let (is_start, is_date, is_seats) = patched_start caps patch active l (dated id l found) in
    (
      rewritten-IsCapped caps id l row t c found (
          subst (λ (d : ℕ). Fits caps l.host_id d row.seat_capacity (λ w. weigh (without id w) t))
            (sym is_date)
            (subst (λ (n : ℕ). Fits caps l.host_id date n (λ w. weigh (without id w) t))
              (sym is_seats) fits)),
      rewritten-IsDated caps id l row t dated found
          (is_date ∙ ap caps.local_date_for (sym is_start)),
    )

-- From listings within the caps, each under the local date of its start, a call of updateListing
-- leaves listings within the caps, each under the local date of its start, whether it succeeds or not.
pub update_listing-IsCapped :
    (env : Env) (caps : Locale) (user id : ℕ) (patch : Patch) (db : Db)
    → IsDated caps db.listings
    → IsCapped caps db.listings
    → let after = (update_listing env caps user id patch db).1.listings in
      IsCapped caps after × IsDated caps after
unfolding update_listing
update_listing-IsCapped env caps user id patch db dated c =
    let body = update_listing_body env caps user id patch in
    let P : Db → Type 0 = λ d. IsCapped caps d.listings × IsDated caps d.listings in
    catch_keeps P (with_transaction body) db (
      with_transaction_keeps P body db (c, dated)
        λ r db' e.
          let (l, day, found, mine, live, fits, room, how) =
            body-Succeeds env caps user id patch db r db' e in
          elim how [
            | inl (_, _, same) ↦ subst P (sym same) (c, dated)
            | inr (_, wrote) ↦
                let cp = column_patch patch l in
                let active = count (active_on id) db.bookings in
                let start = or_else patch.scheduled_start l.scheduled_start in
                let seats = or_else patch.seat_capacity l.seat_capacity in
                let (_, is_day, _, room_left) =
                  assert_within_caps-Fits caps l.host_id start seats (some id) db fits in
                let (jobs, next, _, after, _, _, _) =
                  write_patch_ok env id cp day active l db r db' wrote in
                subst P (sym after) (
                  subst
                    (λ (x : ℕ).
                      let t = modify id (λ _. apply_patch cp x active l) db.listings in
                      IsCapped caps t × IsDated caps t)
                    (sym is_day)
                    (patched-IsCapped caps patch active id l db.listings dated c found (
                      subst
                        (λ (x : ℕ).
                          Fits caps l.host_id x seats (λ w. weigh (without id w) db.listings))
                        is_day room_left)))
          ])
