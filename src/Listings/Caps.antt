-- ===== src/Listings/Caps.antt =====
-- The caps of ADR-009 as an invariant of the listings, and the changes that keep it.
use mathlib.Core.Path.{subst}
use homeplate.Base.{
  ◌-◌, ◌%◌, sym, ℕ, ◌+◌, ◌≤◌, ◌≡◌, Bool, Option, arith, inl, inr, Bool-cases, tally,
}
use homeplate.Table.{Table, modify, weigh}
use homeplate.Table.Laws.{IsUnique, IsUnique-modify, weigh-ext, weigh-modify-le}
use homeplate.Database.{Db, Listing, ok}
use homeplate.Listings.Mehko.{
  Locale, week_range, counts_in, seats_in, listings_in, excluding, on_day, usage,
  assert_within_caps,
}

abbrev pub day_listings : ℕ → ℕ → ℕ → Listing → ℕ
day_listings host day = listings_in host day day

abbrev pub day_seats : ℕ → ℕ → ℕ → Listing → ℕ
day_seats host day = seats_in host day day

abbrev pub week_seats : ℕ → ℕ → ℕ → Listing → ℕ
week_seats host day = seats_in host (week_range day).week_start (week_range day).week_end

-- The Monday of a day's week: Monday, 1970-01-05, is day 4.
abbrev pub monday_of : ℕ → ℕ
monday_of day = day - (day + 3) % 7

-- No host has more listings on a local day, nor more seats on a day or in a week from Monday to
-- Sunday, than the caps allow. Days count from Monday, 1970-01-05.
pub record IsCapped (caps : Locale) (t : Table Listing) : Type 0 where
  pub keys : IsUnique t
  pub daily_listings :
      (host day : ℕ) → weigh (day_listings host day) t ≤ caps.listings_per_host_per_day
  pub daily_meals : (host day : ℕ) → weigh (day_seats host day) t ≤ caps.max_meals_per_day
  pub weekly_meals :
      (host day : ℕ)
      → 4 ≤ day
      → weigh (seats_in host (monday_of day) (monday_of day + 6)) t ≤ caps.max_meals_per_week

-- The week of the code is the one from Monday to Sunday.
week_range-monday :
    (day : ℕ)
    → ((week_range day).week_start ≡ monday_of day)
      × ((week_range day).week_end ≡ monday_of day + 6)
unfolding week_range
week_range-monday day = (omega arith, omega arith)

week_seats-monday :
    (host day : ℕ) → week_seats host day ≡ seats_in host (monday_of day) (monday_of day + 6)
week_seats-monday host day =
    let (start, end) = week_range-monday day in (λ i. seats_in host (start i) (end i))

pub week_room :
    {caps : Locale} {t : Table Listing}
    → IsCapped caps t
    → (host day : ℕ) → 4 ≤ day
    → weigh (week_seats host day) t ≤ caps.max_meals_per_week
week_room {caps} {t} c host day h =
    subst (λ w. weigh w t ≤ caps.max_meals_per_week) (sym (week_seats-monday host day))
      (c.weekly_meals host day h)

-- A Monday-anchored week holds its day, and is the week of each of its days.
pub week_range-holds :
    (day : ℕ) → ((week_range day).week_start ≤ day) × (day ≤ (week_range day).week_end)
unfolding week_range
week_range-holds day = omega arith

pub week_range-same :
    (day other : ℕ)
    → 4 ≤ day
    → (week_range day).week_start ≤ other
    → other ≤ (week_range day).week_end
    → ((week_range other).week_start ≡ (week_range day).week_start)
      × ((week_range other).week_end ≡ (week_range day).week_end)
unfolding week_range
week_range-same day other h lo hi = omega arith

tally-le : (b : Bool) → tally b ≤ 1
tally-le b = ground arith

seats_in-le : (host from to id : ℕ) (l : Listing) → seats_in host from to id l ≤ l.seat_capacity
seats_in-le host from to id l = ground arith

-- What the caps check has established of the host's other listings, for a listing on `day` with
-- so many seats.
pub record Fits (caps : Locale) (host day seats : ℕ) (others : (ℕ → Listing → ℕ) → ℕ) : Type 0 where
  pub one_more : others (day_listings host day) + 1 ≤ caps.listings_per_host_per_day
  pub day_room : others (day_seats host day) + seats ≤ caps.max_meals_per_day
  pub week_room : others (week_seats host day) + seats ≤ caps.max_meals_per_week

-- A table that is one row and others within the caps, where the row fits, is within the caps.
module _ (caps : Locale) (t : Table Listing) (id : ℕ) (row : Listing)
    (others : (ℕ → Listing → ℕ) → ℕ) (unique : IsUnique t)
    (total : (w : ℕ → Listing → ℕ) → weigh w t ≡ w id row + others w)
    (fits : Fits caps row.host_id row.local_date row.seat_capacity others)
    (old_listings : (host day : ℕ)
      → others (day_listings host day) ≤ caps.listings_per_host_per_day)
    (old_day : (host day : ℕ) → others (day_seats host day) ≤ caps.max_meals_per_day)
    (old_week : (host day : ℕ)
      → 4 ≤ day
      → others (week_seats host day) ≤ caps.max_meals_per_week) where
  new_listings : (host day : ℕ) → weigh (day_listings host day) t ≤ caps.listings_per_host_per_day
  new_listings host day = elim (Bool-cases (counts_in host day day row)) [
    | inl hit ↦
        let h : host ≡ row.host_id = ground arith in
        let d : day ≡ row.local_date = ground arith in
        rw (h, d)
          (omega (
            arith,
            total (day_listings row.host_id row.local_date),
            tally-le (counts_in row.host_id row.local_date row.local_date row),
            fits.one_more,
          ))
    | inr miss ↦ ground (arith, total (day_listings host day), old_listings host day)
  ]

  new_day : (host day : ℕ) → weigh (day_seats host day) t ≤ caps.max_meals_per_day
  new_day host day = elim (Bool-cases (counts_in host day day row)) [
    | inl hit ↦
        let h : host ≡ row.host_id = ground arith in
        let d : day ≡ row.local_date = ground arith in
        rw (h, d)
          (omega (
            arith,
            total (day_seats row.host_id row.local_date),
            seats_in-le row.host_id row.local_date row.local_date id row,
            fits.day_room,
          ))
    | inr miss ↦ ground (arith, total (day_seats host day), old_day host day)
  ]

  new_week : (host day : ℕ) → 4 ≤ day → weigh (week_seats host day) t ≤ caps.max_meals_per_week
  new_week host day h4 =
      elim (Bool-cases (counts_in host (week_range day).week_start (week_range day).week_end row)) [
        | inl hit ↦
            let h : host ≡ row.host_id = ground arith in
            let (start, end) =
              week_range-same day row.local_date h4 (ground arith) (ground arith) in
            rw (h, ← start, ← end)
              (omega (
                arith,
                total (week_seats row.host_id row.local_date),
                seats_in-le row.host_id (week_range row.local_date).week_start
                    (week_range row.local_date).week_end id row,
                fits.week_room,
              ))
        | inr miss ↦ ground (arith, total (week_seats host day), old_week host day h4)
      ]

  pub fits-IsCapped : IsCapped caps t
  fits-IsCapped = record {
    keys = unique;
    daily_listings = new_listings;
    daily_meals = new_day;
    weekly_meals = λ host day h.
        subst (λ w. weigh w t ≤ caps.max_meals_per_week) (week_seats-monday host day)
          (new_week host day h);
  }

-- A change of one row that moves it to no other host or date, and enlarges nothing, stays within
-- the caps.
pub modify-IsCapped :
    (caps : Locale) (k : ℕ) (f : Listing → Listing) (t : Table Listing)
    → ((host from to j : ℕ) (l : Listing)
        → seats_in host from to j (f l) ≤ seats_in host from to j l)
    → ((host from to j : ℕ) (l : Listing)
        → listings_in host from to j (f l) ≤ listings_in host from to j l)
    → IsCapped caps t
    → IsCapped caps (modify k f t)
modify-IsCapped caps k f t less fewer c = record {
  keys = IsUnique-modify k f t c.keys;
  daily_listings = λ host day. omega (
    arith,
    weigh-modify-le (day_listings host day) k f t (fewer host day day),
    c.daily_listings host day,
  );
  daily_meals = λ host day. omega (
    arith,
    weigh-modify-le (day_seats host day) k f t (less host day day),
    c.daily_meals host day,
  );
  weekly_meals = λ host day h. omega (
    arith,
    weigh-modify-le (seats_in host (monday_of day) (monday_of day + 6)) k f t
        (less host (monday_of day) (monday_of day + 6)),
    c.weekly_meals host day h,
  );
}

on_day-listings :
    (host day : ℕ) (x : Option ℕ) (j : ℕ) (l : Listing)
    → excluding x
        (on_day day (listings_in host (week_range day).week_start (week_range day).week_end))
        j
        l
      ≡ excluding x (day_listings host day) j l
on_day-listings host day x j l = ground (arith, week_range-holds day)

on_day-seats :
    (host day : ℕ) (x : Option ℕ) (j : ℕ) (l : Listing)
    → excluding x
        (on_day day (seats_in host (week_range day).week_start (week_range day).week_end))
        j
        l
      ≡ excluding x (day_seats host day) j l
on_day-seats host day x j l = ground (arith, week_range-holds day)

-- Where the check passes, the listing fits among the others, on the date that it returns.
pub assert_within_caps-Fits :
    (caps : Locale) (host start seats : ℕ) (x : Option ℕ) (db : Db) {day : ℕ} {db' : Db}
    → assert_within_caps caps host start seats x db ≡ (ok day, db')
    → (db' ≡ db)
      × (day ≡ caps.local_date_for start)
      × (1 ≤ seats)
      × Fits caps host day seats (λ w. weigh (excluding x w) db.listings)
unfolding assert_within_caps usage
assert_within_caps-Fits caps host start seats x db {day} e =
    let d : day ≡ caps.local_date_for start = ground arith in
    let at = caps.local_date_for start in
    let same_listings = weigh-ext _ _ db.listings (on_day-listings host at x) in
    let same_seats = weigh-ext _ _ db.listings (on_day-seats host at x) in
    (
      ground arith,
      d,
      ground arith,
      rw d (record {
        one_more = ground (arith, same_listings);
        day_room = ground (arith, same_seats);
        week_room = ground arith;
      }),
    )
