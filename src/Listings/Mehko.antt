-- ===== src/Listings/Mehko.antt =====
-- src/modules/listings/mehko.js: the caps on a host's listings and seats per local day and week.
-- A calendar date is its number of days since 1970-01-01, as Date.UTC counts them.
use homeplate.Base.{
  ℕ, ◌+◌, ◌-◌, ◌*◌, ◌/◌, ◌%◌, Bool, true, false, not, ◌&&◌, ◌||◌, Option, none, some, ltb, leb,
  ◌==◌, if◌then◌else◌, tally,
}
use homeplate.Table.{weigh}
use homeplate.Database.{Db, Listing, ListingStatus, Tx, Failure, pure, query, throw_if, ◌>>=◌, ◌>>◌}

-- config.mehko, with the calendar of its time zone: the local date of an instant, which the
-- source takes from Intl.DateTimeFormat.
pub record Locale : Type 0 where
  pub listings_per_host_per_day : ℕ
  pub max_meals_per_day : ℕ
  pub max_meals_per_week : ℕ
  pub local_date_for : ℕ → ℕ

-- src/config/locale.js: one listing, 30 meals a day, 90 a week.
abbrev pub us_ca : (ℕ → ℕ) → Locale
us_ca calendar = record {
  listings_per_host_per_day = 1;
  max_meals_per_day = 30;
  max_meals_per_week = 90;
  local_date_for = calendar;
}

abbrev pub days_per_week : ℕ
days_per_week = 7

abbrev pub ms_per_day : ℕ
ms_per_day = 86400000

-- The UTC midnight of a calendar date, and the date of a UTC midnight.
abbrev pub calendar_utc : ℕ → ℕ
calendar_utc date = date * ms_per_day

abbrev pub format_calendar_utc : ℕ → ℕ
format_calendar_utc t = t / ms_per_day

-- Date.prototype.getUTCDay: 1970-01-01 was a Thursday, 4.
abbrev pub get_utc_day : ℕ → ℕ
get_utc_day t = (t / ms_per_day + 4) % 7

pub record DayRange : Type 0 where
  pub week_start : ℕ
  pub week_end : ℕ

-- weekRangeFor, on the local date.
unfoldable pub week_range : ℕ → DayRange
week_range local_date =
    let as_utc = calendar_utc local_date in
    let since_monday = (get_utc_day as_utc + days_per_week - 1) % days_per_week in
    let start = as_utc - since_monday * ms_per_day in
    record {
      week_start = format_calendar_utc start;
      week_end = format_calendar_utc (start + (days_per_week - 1) * ms_per_day);
    }

abbrev pub is_cancelled : ListingStatus → Bool
is_cancelled ListingStatus.cancelled = true
is_cancelled ListingStatus.active = false

abbrev pub is_excluded : Option ℕ → ℕ → Bool
is_excluded none id = false
is_excluded (some x) id = id == x

-- A host's listing that is not cancelled, with its local date in the range.
abbrev pub counts_in : ℕ → ℕ → ℕ → Listing → Bool
counts_in host from to l =
    l.host_id == host && not (is_cancelled l.status) && leb from l.local_date && leb l.local_date to

-- The seats of the listings in a range, and their number.
abbrev pub seats_in : ℕ → ℕ → ℕ → ℕ → Listing → ℕ
seats_in host from to id l = if counts_in host from to l then l.seat_capacity else 0

abbrev pub listings_in : ℕ → ℕ → ℕ → ℕ → Listing → ℕ
listings_in host from to id l = tally (counts_in host from to l)

-- … AND ($5::uuid IS NULL OR id <> $5)
abbrev pub excluding : Option ℕ → (ℕ → Listing → ℕ) → ℕ → Listing → ℕ
excluding x w id l = if is_excluded x id then 0 else w id l

pub record Usage : Type 0 where
  pub day_listings : ℕ
  pub day_seats : ℕ
  pub week_seats : ℕ

-- FILTER (WHERE local_date = $2)
abbrev pub on_day : ℕ → (ℕ → Listing → ℕ) → ℕ → Listing → ℕ
on_day day w id l = if l.local_date == day then w id l else 0

-- The one query of assertWithinCaps.
unfoldable pub usage : ℕ → ℕ → Option ℕ → Db → Usage
usage host day exclude db =
    let week = week_range day in
    let counted = listings_in host week.week_start week.week_end in
    let seats = seats_in host week.week_start week.week_end in
    record {
      day_listings = weigh (excluding exclude (on_day day counted)) db.listings;
      day_seats = weigh (excluding exclude (on_day day seats)) db.listings;
      week_seats = weigh (excluding exclude seats) db.listings;
    }

-- assertWithinCaps: the local date under which the listing may stand.
unfoldable pub assert_within_caps : Locale → ℕ → ℕ → ℕ → Option ℕ → Tx ℕ
assert_within_caps caps host start seats exclude = do
  throw_if (ltb seats 1) Failure.validation_failed
  let day = caps.local_date_for start
  used ← query (usage host day exclude)
  throw_if (leb caps.listings_per_host_per_day used.day_listings) Failure.mehko_daily_listing_limit
  throw_if (ltb caps.max_meals_per_day seats || ltb caps.max_meals_per_day (used.day_seats + seats))
      Failure.mehko_daily_meal_limit
  throw_if (ltb caps.max_meals_per_week (used.week_seats + seats)) Failure.mehko_weekly_meal_limit
  pure day
