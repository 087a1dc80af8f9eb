-- ===== src/Listings/Service.antt =====
-- src/modules/listings/service.js: createListing, updateListing and cancelListing, with the
-- statements of repo.js. The audit lines are left out, and a call returns the row that the
-- source hands to its serializer.
use Prim.Native.String.{String}
use homeplate.Base.{
  ℕ, suc, Bool, true, false, not, ◌&&◌, ◌||◌, Option, none, some, List, [], ◌∷◌, ◌==◌,
  if◌then◌else◌, length,
}
use homeplate.Table.{Table, lookup, modify, update_all, select}
use homeplate.Database.{
  Env, Listing, ListingStatus, ModerationStatus, Booking, BookingStatus, JobType, Payload,
  DedupeKey, Event, ContentType, Tx, Failure, ok, err, pure, query, throw_if, some_or_throw,
  with_transaction, ◌>>=◌, ◌>>◌,
}
use homeplate.Outbox.Enqueue.{enqueue}
use homeplate.Bookings.Repo.{cancel_at}
use homeplate.Listings.Mehko.{Locale, assert_within_caps, is_cancelled}

-- A validated create body.
pub record NewListing : Type 0 where
  pub title : String
  pub description : String
  pub ingredients : List String
  pub allergens : List String
  pub cuisine : Option String
  pub scheduled_start : ℕ
  pub duration_minutes : ℕ
  pub address_line1 : Option String
  pub address_line2 : Option String
  pub city : Option String
  pub region : Option String
  pub postal_code : Option String
  pub country : Option String
  pub seat_capacity : ℕ
  pub price_per_seat_cents : Option ℕ

-- `a ?? b`
abbrev pub or_else {ℓ} : {A : Type ℓ} → Option A → A → A
or_else none b = b
or_else (some a) b = a

-- The row of insertListing.
abbrev pub listing_row : Env → ℕ → ℕ → NewListing → Listing
listing_row env host_id local_date input = record {
  host_id = host_id;
  title = input.title;
  description = input.description;
  ingredients = input.ingredients;
  allergens = input.allergens;
  cuisine = input.cuisine;
  scheduled_start = input.scheduled_start;
  duration_minutes = input.duration_minutes;
  local_date = local_date;
  address_line1 = input.address_line1;
  address_line2 = input.address_line2;
  city = input.city;
  region = input.region;
  postal_code = input.postal_code;
  country = or_else input.country "US";
  lat = none;
  lng = none;
  coarse_lat = none;
  coarse_lng = none;
  area_label = none;
  seat_capacity = input.seat_capacity;
  seats_remaining = input.seat_capacity;
  price_per_seat_cents = or_else input.price_per_seat_cents 0;
  moderation_status = ModerationStatus.pending;
  status = ListingStatus.active;
  created_at = env.now;
}

-- The partial unique index listings_host_local_date_key: is another listing, not cancelled, of
-- the same host on the same date in the table?
abbrev pub takes_day : ℕ → ℕ → Listing → Bool
takes_day host day l = not (is_cancelled l.status) && l.host_id == host && l.local_date == day

abbrev pub day_taken : ℕ → ℕ → ℕ → Table Listing → Bool
day_taken id host day [] = false
day_taken id host day ((j, l) ∷ t) =
    (not (j == id) && takes_day host day l) || day_taken id host day t

unfoldable pub insert_listing : Env → ℕ → ℕ → NewListing → Tx (ℕ × Listing)
insert_listing env host_id local_date input db =
    let row = listing_row env host_id local_date input in
    if day_taken db.next_id host_id local_date db.listings
    then (err Failure.unique_violation, db)
    else (
      ok (db.next_id, row),
      record db { listings = (db.next_id, row) ∷ db.listings; next_id = suc db.next_id },
    )

-- `if (isDailyLimitViolation(err)) throw dailyLimitConflict(err)`
abbrev pub daily_limit : Failure → Failure
daily_limit Failure.unique_violation = Failure.mehko_daily_listing_limit
daily_limit e = e

abbrev pub catch_daily_limit : {A : Type 0} → Tx A → Tx A
catch_daily_limit m db =
    let (r, db') = m db in elim r [ ok a ↦ (ok a, db') | err e ↦ (err (daily_limit e), db') ]

unfoldable pub create_listing_body : Env → Locale → ℕ → NewListing → Tx (ℕ × Listing)
create_listing_body env caps host_id input = do
  local_date ← assert_within_caps caps host_id input.scheduled_start input.seat_capacity none
  inserted ← insert_listing env host_id local_date input
  enqueue env JobType.listing_geocode (Payload.listing_ref inserted.0) none none
  enqueue env JobType.moderation_scan (Payload.content_ref ContentType.listing inserted.0) none none
  pure inserted

unfoldable pub create_listing : Env → Locale → ℕ → NewListing → Tx (ℕ × Listing)
create_listing env caps host_id input =
    catch_daily_limit (with_transaction (create_listing_body env caps host_id input))

-- The status change of repo.cancelListing.
abbrev pub closed : Listing → Listing
closed l = record l { status = ListingStatus.cancelled }

abbrev pub is_active_booking : BookingStatus → Bool
is_active_booking BookingStatus.pending = true
is_active_booking BookingStatus.in_progress = true
is_active_booking _ = false

abbrev pub active_on : ℕ → Booking → Bool
active_on listing_id b = b.listing_id == listing_id && is_active_booking b.status

-- cancelActiveBookings: the rows that it returns, as they were found.
unfoldable pub cancel_active_bookings : Env → ℕ → Tx (Table Booking)
cancel_active_bookings env listing_id db = (
  ok (select (active_on listing_id) db.bookings),
  record db { bookings = update_all (active_on listing_id) (cancel_at env.now) db.bookings },
)

-- One notification for the guest of each cancelled booking.
unfoldable pub notify_cancelled : Env → Table Booking → Tx (Unit {0})
notify_cancelled env [] = pure tt
notify_cancelled env ((id, b) ∷ rest) =
    enqueue env JobType.notify_booking (Payload.notification id Event.listing_cancelled b.guest_id)
      (some (DedupeKey.notify_listing_cancelled id)) none
    >> notify_cancelled env rest

-- repo.cancelListing, and what follows from it in the same transaction.
unfoldable pub close_listing : Env → ℕ → Listing → Tx (Listing × ℕ)
close_listing env listing_id current db =
    let shut = record db { listings = modify listing_id closed db.listings } in
    (cancel_active_bookings env listing_id >>= λ affected.
    notify_cancelled env affected >> pure (closed current, length affected))
      shut

-- The listing, and the number of bookings that were cancelled with it.
unfoldable pub cancel_listing_body : Env → ℕ → ℕ → Tx (Listing × ℕ)
cancel_listing_body env user listing_id = do
  current ← some_or_throw (← query (λ db. lookup listing_id db.listings)) Failure.not_found
  throw_if (not (current.host_id == user)) Failure.forbidden
  (if is_cancelled current.status then pure (current, 0) else close_listing env listing_id current)

unfoldable pub cancel_listing : Env → ℕ → ℕ → Tx (Listing × ℕ)
cancel_listing env user listing_id = with_transaction (cancel_listing_body env user listing_id)
