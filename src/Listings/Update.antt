-- ===== src/Listings/Update.antt =====
-- updateListing of src/modules/listings/service.js: which columns a patch changes, and what
-- follows from a changed text, address or start.
use Prim.Native.String.{String}
use text.Mathlib.Text.{◌==◌ as str_eq}
use homeplate.Base.{
  ℕ, ◌-◌, Bool, true, false, not, ◌&&◌, ◌||◌, Option, none, some, List, [], ◌∷◌, ◌++◌, ltb, ◌==◌,
  if◌then◌else◌, is_some,
}
use homeplate.Table.{Table, lookup, modify, count}
use homeplate.Database.{
  Env, Listing, ModerationStatus, Booking, JobType, Payload, ContentType, Tx, Failure, ok, err,
  pure, query, throw_if, some_or_throw, with_transaction, ◌>>=◌, ◌>>◌,
}
use homeplate.Outbox.Enqueue.{enqueue}
use homeplate.Bookings.Repo.{is_pending, seats_within_capacity}
use homeplate.Bookings.Lifecycle.{enqueue_promotion}
use homeplate.Listings.Mehko.{Locale, assert_within_caps, is_cancelled}
use homeplate.Listings.Service.{or_else, active_on, day_taken, catch_daily_limit}

-- A validated patch; `none` is a field that it does not name.
pub record Patch : Type 0 where
  pub title : Option String
  pub description : Option String
  pub ingredients : Option (List String)
  pub allergens : Option (List String)
  pub cuisine : Option (Option String)
  pub address_line1 : Option (Option String)
  pub address_line2 : Option (Option String)
  pub city : Option (Option String)
  pub region : Option (Option String)
  pub postal_code : Option (Option String)
  pub country : Option String
  pub scheduled_start : Option ℕ
  pub duration_minutes : Option ℕ
  pub price_per_seat_cents : Option ℕ
  pub seat_capacity : Option ℕ

-- sameValue, at the three kinds of value that it compares.
abbrev pub same_text : String → String → Bool
same_text a b = str_eq a b

abbrev pub same_texts : List String → List String → Bool
same_texts [] [] = true
same_texts (a ∷ as') (b ∷ bs) = str_eq a b && same_texts as' bs
same_texts _ _ = false

abbrev pub same_nullable : Option String → Option String → Bool
same_nullable none none = true
same_nullable (some a) (some b) = str_eq a b
same_nullable _ _ = false

-- A field that the patch names and that differs from the row.
abbrev pub changed {ℓ} : {A : Type ℓ} → (A → A → Bool) → Option A → A → Option A
changed same none current = none
changed same (some v) current = if same v current then none else some v

-- columnPatch, by the columns that it sets together.
pub record ColumnPatch : Type 0 where
  pub title : Option String
  pub description : Option String
  pub ingredients : Option (List String)
  pub allergens : Option (List String)
  pub cuisine : Option (Option String)
  pub address_line1 : Option (Option String)
  pub address_line2 : Option (Option String)
  pub city : Option (Option String)
  pub region : Option (Option String)
  pub postal_code : Option (Option String)
  pub country : Option String
  pub scheduled_start : Option ℕ
  pub duration_minutes : Option ℕ
  pub price_per_seat_cents : Option ℕ
  pub seat_capacity : Option ℕ

abbrev same_number : ℕ → ℕ → Bool
same_number a b = a == b

unfoldable pub column_patch : Patch → Listing → ColumnPatch
column_patch p l = record {
  title = changed same_text p.title l.title;
  description = changed same_text p.description l.description;
  ingredients = changed same_texts p.ingredients l.ingredients;
  allergens = changed same_texts p.allergens l.allergens;
  cuisine = changed same_nullable p.cuisine l.cuisine;
  address_line1 = changed same_nullable p.address_line1 l.address_line1;
  address_line2 = changed same_nullable p.address_line2 l.address_line2;
  city = changed same_nullable p.city l.city;
  region = changed same_nullable p.region l.region;
  postal_code = changed same_nullable p.postal_code l.postal_code;
  country = changed same_text p.country l.country;
  scheduled_start = changed same_number p.scheduled_start l.scheduled_start;
  duration_minutes = changed same_number p.duration_minutes l.duration_minutes;
  price_per_seat_cents = changed same_number p.price_per_seat_cents l.price_per_seat_cents;
  seat_capacity = changed same_number p.seat_capacity l.seat_capacity;
}

-- A change of MATERIAL_FIELDS.
abbrev pub is_material : ColumnPatch → Bool
is_material c =
    is_some c.title
    || is_some c.description
    || is_some c.ingredients
    || is_some c.allergens
    || is_some c.cuisine

-- A change of ADDRESS_FIELDS.
abbrev pub is_address_change : ColumnPatch → Bool
is_address_change c =
    is_some c.address_line1
    || is_some c.address_line2
    || is_some c.city
    || is_some c.region
    || is_some c.postal_code
    || is_some c.country

-- changedFields.length > 0
abbrev pub changes_any : ColumnPatch → Bool
changes_any c =
    is_material c
    || is_address_change c
    || is_some c.scheduled_start
    || is_some c.duration_minutes
    || is_some c.price_per_seat_cents
    || is_some c.seat_capacity

-- `columnPatch.lat = null` and its like, where the address changed.
abbrev pub keep_unless {ℓ} : {A : Type ℓ} → Bool → Option A → Option A
keep_unless gone v = if gone then none else v

abbrev pub reset_if : Bool → ModerationStatus → ModerationStatus
reset_if material s = if material then ModerationStatus.pending else s

-- The seats that a new capacity leaves free beside the active bookings.
abbrev pub seats_left : Option ℕ → ℕ → ℕ → ℕ
seats_left none active current = current
seats_left (some capacity) active current = capacity - active

-- The SET clause of repo.updateListing under the column patch.
unfoldable pub apply_patch : ColumnPatch → ℕ → ℕ → Listing → Listing
apply_patch c local_date active l = record {
  host_id = l.host_id;
  title = or_else c.title l.title;
  description = or_else c.description l.description;
  ingredients = or_else c.ingredients l.ingredients;
  allergens = or_else c.allergens l.allergens;
  cuisine = or_else c.cuisine l.cuisine;
  scheduled_start = or_else c.scheduled_start l.scheduled_start;
  duration_minutes = or_else c.duration_minutes l.duration_minutes;
  local_date = if is_some c.scheduled_start then local_date else l.local_date;
  address_line1 = or_else c.address_line1 l.address_line1;
  address_line2 = or_else c.address_line2 l.address_line2;
  city = or_else c.city l.city;
  region = or_else c.region l.region;
  postal_code = or_else c.postal_code l.postal_code;
  country = or_else c.country l.country;
  lat = keep_unless (is_address_change c) l.lat;
  lng = keep_unless (is_address_change c) l.lng;
  coarse_lat = keep_unless (is_address_change c) l.coarse_lat;
  coarse_lng = keep_unless (is_address_change c) l.coarse_lng;
  area_label = keep_unless (is_address_change c) l.area_label;
  seat_capacity = or_else c.seat_capacity l.seat_capacity;
  seats_remaining = seats_left c.seat_capacity active l.seats_remaining;
  price_per_seat_cents = or_else c.price_per_seat_cents l.price_per_seat_cents;
  moderation_status = reset_if (is_material c) l.moderation_status;
  status = l.status;
  created_at = l.created_at;
}

-- repo.updateListing, with the CHECK on the seats and the unique index that back it.
unfoldable pub write_listing : ℕ → Listing → Tx Listing
write_listing id row db =
    if not (seats_within_capacity row)
    then (err Failure.check_violation, db)
    else if not (is_cancelled row.status) && day_taken id row.host_id row.local_date db.listings
    then (err Failure.unique_violation, db)
    else (ok row, record db { listings = modify id (λ _. row) db.listings })

-- pendingBookingIds, the oldest first.
unfoldable pub pending_booking_ids : ℕ → Table Booking → List ℕ
pending_booking_ids listing_id [] = []
pending_booking_ids listing_id ((id, b) ∷ t) =
    pending_booking_ids listing_id t
    ++ (if b.listing_id == listing_id && is_pending b.status then id ∷ [] else [])

unfoldable pub enqueue_promotions : Env → ℕ → List ℕ → Tx (Unit {0})
enqueue_promotions env at [] = pure tt
enqueue_promotions env at (id ∷ ids) = enqueue_promotion env id at >> enqueue_promotions env at ids

-- `if (flag) await outbox.enqueue(…)`, for a job without a dedupe key.
unfoldable pub enqueue_if : Bool → Env → JobType → Payload → Tx (Unit {0})
enqueue_if false env type payload = pure tt
enqueue_if true env type payload = enqueue env type payload none none >> pure tt

unfoldable pub reschedule : Env → Bool → ℕ → Listing → Tx (Unit {0})
reschedule env false listing_id updated db = (ok tt, db)
reschedule env true listing_id updated db =
    enqueue_promotions env updated.scheduled_start (pending_booking_ids listing_id db.bookings) db

-- The write of a patch that changes something, and the jobs that follow.
unfoldable pub write_patch : Env → ℕ → ColumnPatch → ℕ → ℕ → Listing → Tx Listing
write_patch env listing_id c local_date active current = do
  updated ← write_listing listing_id (apply_patch c local_date active current)
  enqueue_if (is_material c) env JobType.moderation_scan
      (Payload.content_ref ContentType.listing listing_id)
  enqueue_if (is_address_change c) env JobType.listing_geocode (Payload.listing_ref listing_id)
  reschedule env (is_some c.scheduled_start) listing_id updated
  pure updated

-- `patch.seatCapacity < active`, of a capacity that changes.
abbrev pub is_below : Option ℕ → ℕ → Bool
is_below none active = false
is_below (some capacity) active = ltb capacity active

unfoldable pub update_listing_body : Env → Locale → ℕ → ℕ → Patch → Tx Listing
update_listing_body env caps user listing_id patch = do
  current ← some_or_throw (← query (λ db. lookup listing_id db.listings)) Failure.not_found
  throw_if (not (current.host_id == user)) Failure.forbidden
  throw_if (is_cancelled current.status) Failure.listing_cancelled
  local_date ←
      assert_within_caps caps current.host_id
        (or_else patch.scheduled_start current.scheduled_start)
        (or_else patch.seat_capacity current.seat_capacity) (some listing_id)
  let c = column_patch patch current
  active ← query (λ db. count (active_on listing_id) db.bookings)
  throw_if (is_below c.seat_capacity active) Failure.seat_capacity_below_booked
  (if changes_any c then write_patch env listing_id c local_date active current else pure current)

unfoldable pub update_listing : Env → Locale → ℕ → ℕ → Patch → Tx Listing
update_listing env caps user listing_id patch =
    catch_daily_limit (with_transaction (update_listing_body env caps user listing_id patch))
