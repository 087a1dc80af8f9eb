-- ===== src/Listings/Tests.antt =====
-- The listings at concrete inputs.
use homeplate.Base.{ℕ, ◌≡◌, ◌/◌, refl, arith, false, none, some, [], ◌∷◌}
use homeplate.Table.{Table, lookup}
use homeplate.Database.{
  empty_db, Db, Env, Listing, Booking, BookingStatus, Job, ok, with_transaction,
}
use homeplate.Outbox.Enqueue.{enqueue}
use homeplate.Outbox.Keys.{Extends}
use homeplate.Bookings.Seats.{IsSound, seats_held}
use homeplate.Listings.Mehko.{Locale, us_ca, week_range, usage, assert_within_caps}
use homeplate.Listings.Service.{
  NewListing, listing_row, closed, insert_listing, create_listing_body, create_listing,
  cancel_active_bookings, notify_cancelled, close_listing, cancel_listing_body, cancel_listing,
}
use homeplate.Listings.Caps.{IsCapped}
use homeplate.Listings.Creation.{listed, create_listing-IsCapped}
use homeplate.Listings.Update.{Patch, update_listing}
use homeplate.Listings.Schedule.{IsDated, update_listing-IsCapped}
use homeplate.Listings.Closing.{CancellationJob, ToldAll, shut, cancel_listing_cascades}

-- A calendar whose days begin at midnight UTC.
abbrev utc : Locale
utc = us_ca (λ t. t / 86400000)

-- A meal on Monday, 1970-01-05.
abbrev pub brunch : NewListing
brunch = record {
  title = "Brunch";
  description = "Eggs";
  ingredients = "eggs" ∷ [];
  allergens = [];
  cuisine = some "Californian";
  scheduled_start = 345600000;
  duration_minutes = 60;
  address_line1 = some "1 Main St";
  address_line2 = none;
  city = some "San Diego";
  region = none;
  postal_code = none;
  country = none;
  seat_capacity = 8;
  price_per_seat_cents = none;
}

abbrev pub at : ℕ → Env
at t = record { now = t; date_now = t; correlation_id = none; row_locked = λ i. false }

abbrev empty : Db
empty = empty_db

empty-IsSound : IsSound empty
empty-IsSound = record {
  seats = λ k l e. ground arith;
  listing_ids = λ k l e. ground arith;
  unheld = λ k g. ground arith;
  confirmed = λ k b e. ground arith;
}

empty-IsCapped : IsCapped utc []
empty-IsCapped = record {
  keys = tt;
  daily_listings = λ host day. omega arith;
  daily_meals = λ host day. omega arith;
  weekly_meals = λ host day late. omega arith;
}

create_listing-IsCapped_example : IsCapped utc (create_listing (at 7) utc 3 brunch empty).1.listings
create_listing-IsCapped_example =
    create_listing-IsCapped (at 7) utc 3 brunch empty empty-IsSound empty-IsCapped

abbrev created : ℕ × Listing
created = (1, listing_row (at 7) 3 4 brunch)

brunch_eq : create_listing (at 7) utc 3 brunch empty ≡ (ok created, listed (at 7) 3 4 brunch empty)
unfolding create_listing create_listing_body with_transaction assert_within_caps usage week_range
    insert_listing enqueue
brunch_eq = refl

-- The brunch with a guest.
abbrev pub offer : Listing
offer = listing_row (at 7) 3 4 brunch

abbrev pub guest : Booking
guest = record {
  listing_id = 1;
  guest_id = 9;
  status = BookingStatus.pending;
  host_confirmed_completion = false;
  guest_confirmed_completion = false;
  cancelled_at = none;
  completed_at = none;
  created_at = 8;
}

abbrev pub taken : Db
taken = record empty_db {
  listings = (1, record offer { seats_remaining = 7 }) ∷ [];
  bookings = (4, guest) ∷ [];
  next_id = 5;
}

taken-IsSound : IsSound taken
taken-IsSound = record {
  seats = λ k l e. ground arith;
  listing_ids = λ k l e. ground arith;
  unheld = λ k g. ground arith;
  confirmed = λ k b e. ground arith;
}

cancel_listing_cascades_example :
    let l : Listing = record offer { seats_remaining = 7 } in
    (jobs : Table Job) × (next : ℕ) × (cancel_listing (at 20) 3 1 taken
      ≡ (ok (closed l, 1), record (shut (at 20) 1 taken) { jobs = jobs; next_id = next }))
    × (seats_held 1 (shut (at 20) 1 taken) ≡ 0)
    × (lookup 1 (shut (at 20) 1 taken).listings ≡ some (closed l))
    × ((closed l).seats_remaining ≡ 7)
    × Extends (CancellationJob (at 20) ((4, guest) ∷ [])) [] jobs
    × ToldAll ((4, guest) ∷ []) jobs
cancel_listing_cascades_example =
    cancel_listing_cascades (at 20) 3 1 taken (record offer { seats_remaining = 7 }) refl refl refl

abbrev off : Db
off = (cancel_listing (at 20) 3 1 taken).1

off_eq :
    cancel_listing (at 20) 3 1 taken ≡ (ok (closed (record offer { seats_remaining = 7 }), 1), off)
unfolding cancel_listing cancel_listing_body with_transaction close_listing cancel_active_bookings
    notify_cancelled enqueue
off_eq = refl

-- The brunch moves to Tuesday, with fewer seats; the guest's booking stays.
abbrev later : Patch
later = record {
  title = none;
  description = none;
  ingredients = none;
  allergens = none;
  cuisine = none;
  address_line1 = none;
  address_line2 = none;
  city = none;
  region = none;
  postal_code = none;
  country = none;
  scheduled_start = some 432000000;
  duration_minutes = none;
  price_per_seat_cents = none;
  seat_capacity = some 5;
}

taken-IsDated : IsDated utc taken.listings
taken-IsDated = λ k l e. ground arith

taken-IsCapped : IsCapped utc taken.listings
taken-IsCapped = record {
  keys = (refl, tt);
  daily_listings = λ host day. ground arith;
  daily_meals = λ host day. ground arith;
  weekly_meals = λ host day late. ground arith;
}

update_listing-IsCapped_example :
    IsCapped utc (update_listing (at 20) utc 3 1 later taken).1.listings
    × IsDated utc (update_listing (at 20) utc 3 1 later taken).1.listings
update_listing-IsCapped_example =
    update_listing-IsCapped (at 20) utc 3 1 later taken taken-IsDated taken-IsCapped

abbrev tuesday : Listing
tuesday = record offer {
  scheduled_start = 432000000;
  local_date = 5;
  seat_capacity = 5;
  seats_remaining = 4;
}

abbrev moved : Db
moved = (update_listing (at 20) utc 3 1 later taken).1
