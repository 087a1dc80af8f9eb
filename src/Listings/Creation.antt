-- ===== src/Listings/Creation.antt =====
-- createListing as a whole: what it writes, and that it stays within the caps.
use mathlib.Core.Path.{subst}
use homeplate.Base.{
  ℕ, suc, ◌≤◌, ◌≡◌, refl, sym, ap, false, none, ◌∷◌, arith, inl, inr, Option-cases, is_some,
}
use homeplate.Table.{lookup, weigh}
use homeplate.Database.{
  Db, Env, Listing, JobType, Payload, ContentType, Failure, ok, err, Tx, with_transaction_keeps,
  with_transaction_inv, with_transaction, Result-cases, >>=_inv, pure, ◌>>=◌, ◌>>◌,
}
use homeplate.Outbox.Enqueue.{enqueue, new_job}
use homeplate.Bookings.Seats.{IsSound}
use homeplate.Listings.Mehko.{Locale, excluding, assert_within_caps}
use homeplate.Listings.Service.{
  NewListing, listing_row, day_taken, insert_listing, create_listing_body, create_listing,
  catch_daily_limit, daily_limit,
}
use homeplate.Listings.Caps.{week_room, IsCapped, Fits, assert_within_caps-Fits, fits-IsCapped}

-- The state that a creation leaves: the listing, its geocoding and its moderation scan.
abbrev pub listed : Env → ℕ → ℕ → NewListing → Db → Db
listed env host day input db =
    let id = db.next_id in
    record db {
      listings = (id, listing_row env host day input) ∷ db.listings;
      jobs =
          (
            suc (suc id),
            new_job env JobType.moderation_scan (Payload.content_ref ContentType.listing id) none
                none,
          )
          ∷ (suc id, new_job env JobType.listing_geocode (Payload.listing_ref id) none none)
          ∷ db.jobs;
      next_id = suc (suc (suc id));
    }

inserted_ok :
    (env : Env) (host day : ℕ) (input : NewListing) (db : Db) {r : ℕ × Listing} {db' : Db}
    → (insert_listing env host day input >>= λ inserted.
          enqueue env JobType.listing_geocode (Payload.listing_ref inserted.0) none none
          >> (enqueue env JobType.moderation_scan
                (Payload.content_ref ContentType.listing inserted.0)
                none
                none
              >> pure inserted))
        db
      ≡ (ok r, db')
    → (r ≡ (db.next_id, listing_row env host day input))
      × (db' ≡ listed env host day input db)
      × (day_taken db.next_id host day db.listings ≡ false)
unfolding insert_listing enqueue
inserted_ok env host day input db e = (ground arith, ground arith, ground arith)

module _ (env : Env) (caps : Locale) (host : ℕ) (input : NewListing) (db : Db) where
  abbrev day : ℕ
  day = caps.local_date_for input.scheduled_start

  body_writes :
      {r : ℕ × Listing} {db' : Db}
      → create_listing_body env caps host input db ≡ (ok r, db')
      → (r ≡ (db.next_id, listing_row env host day input))
        × (db' ≡ listed env host day input db)
        × (1 ≤ input.seat_capacity)
        × Fits caps host day input.seat_capacity (λ w. weigh (excluding none w) db.listings)
        × (day_taken db.next_id host day db.listings ≡ false)
  unfolding create_listing_body
  body_writes {r} {db'} e =
      let (d, mid, checked, written) =
        >>=_inv (assert_within_caps caps host input.scheduled_start input.seat_capacity none)
          (λ local_date. insert_listing env host local_date input >>= λ inserted.
            enqueue env JobType.listing_geocode (Payload.listing_ref inserted.0) none none
            >> (enqueue env JobType.moderation_scan
                  (Payload.content_ref ContentType.listing inserted.0) none none
                >> pure inserted))
          e in
      let (same, is_day, seats, fits) =
        assert_within_caps-Fits caps host input.scheduled_start input.seat_capacity none db
          checked in
      let moved =
        subst
          (λ (m : Db).
            (insert_listing env host d input >>= λ inserted.
            enqueue env JobType.listing_geocode (Payload.listing_ref inserted.0) none none
            >> (enqueue env JobType.moderation_scan
                  (Payload.content_ref ContentType.listing inserted.0) none none
                >> pure inserted))
              m
            ≡ (ok r, db'))
          same written in
      let (row, after, free) = inserted_ok env host d input db moved in
      subst
        (λ (x : ℕ).
          (r ≡ (db.next_id, listing_row env host x input))
          × (db' ≡ listed env host x input db)
          × (1 ≤ input.seat_capacity)
          × Fits caps host x input.seat_capacity (λ w. weigh (excluding none w) db.listings)
          × (day_taken db.next_id host x db.listings ≡ false))
        is_day (row, after, seats, fits, free)

-- The rescue of the unique index changes neither a success nor the state.
pub catch_ok :
    {A : Type 0} (m : Tx A) {a : A} {db db' : Db}
    → catch_daily_limit m db ≡ (ok a, db')
    → m db ≡ (ok a, db')
catch_ok m e = ground arith

pub catch_keeps {ℓ} :
    {A : Type 0} (P : Db → Type ℓ) (m : Tx A) (db : Db) → P (m db).1 → P (catch_daily_limit m db).1
catch_keeps P m db p = elim (Result-cases (m db)) [
  | inl (a, db', e) ↦
      subst P (ap (λ r. r.1) (sym (caught_ok m db a db' e))) (subst P (ap (λ r. r.1) e) p)
  | inr (x, db', e) ↦
      subst P (ap (λ r. r.1) (sym (caught_err m db x db' e))) (subst P (ap (λ r. r.1) e) p)
]
  where
    caught_ok :
        {A : Type 0} (m : Tx A) (db : Db) (a : A) (db' : Db)
        → m db ≡ (ok a, db')
        → catch_daily_limit m db ≡ (ok a, db')
    caught_ok m db a db' e = ground arith

    caught_err :
        {A : Type 0} (m : Tx A) (db : Db) (x : Failure) (db' : Db)
        → m db ≡ (err x, db')
        → catch_daily_limit m db ≡ (err (daily_limit x), db')
    caught_err m db x db' e = ground arith

listed-IsSound :
    (env : Env) (host day : ℕ) (input : NewListing) (db : Db)
    → IsSound db
    → IsSound (listed env host day input db)
listed-IsSound env host day input db v = record {
  seats = λ k l e. ground (arith, v.seats k l, v.unheld k);
  listing_ids = λ k l e. ground (arith, v.listing_ids k l);
  unheld = λ k h. v.unheld k (omega arith);
  confirmed = v.confirmed;
}

absent_of : (db : Db) → IsSound db → is_some (lookup db.next_id db.listings) ≡ false
absent_of db v = elim (Option-cases (lookup db.next_id db.listings)) [
  | inl gone ↦ rw gone refl
  | inr (l, e) ↦ absurd (omega (arith, v.listing_ids db.next_id l e))
]

listed-IsCapped :
    (env : Env) (caps : Locale) (host day : ℕ) (input : NewListing) (db : Db)
    → IsSound db
    → IsCapped caps db.listings
    → Fits caps host day input.seat_capacity (λ w. weigh (excluding none w) db.listings)
    → IsCapped caps (listed env host day input db).listings
listed-IsCapped env caps host day input db v c fits =
    fits-IsCapped caps (listed env host day input db).listings db.next_id
      (listing_row env host day input) (λ w. weigh w db.listings) (absent_of db v, c.keys)
      (λ w. refl) fits c.daily_listings c.daily_meals (week_room c)

-- From a sound state, a call of createListing leaves a sound state, whether it succeeds or not.
pub create_listing-IsSound :
    (env : Env) (caps : Locale) (host : ℕ) (input : NewListing) (db : Db)
    → IsSound db
    → IsSound (create_listing env caps host input db).1
unfolding create_listing
create_listing-IsSound env caps host input db v =
    catch_keeps IsSound (with_transaction (create_listing_body env caps host input)) db (
      with_transaction_keeps IsSound (create_listing_body env caps host input) db v λ r db' e.
        let (_, after, _, _, _) = body_writes env caps host input db e in
        subst IsSound (sym after)
          (listed-IsSound env host (caps.local_date_for input.scheduled_start) input db v))

-- From a sound state within the caps, a call of createListing leaves the listings within the caps:
-- a host's listings on a day, seats on a day and seats in a week from Monday to Sunday.
pub create_listing-IsCapped :
    (env : Env) (caps : Locale) (host : ℕ) (input : NewListing) (db : Db)
    → IsSound db
    → IsCapped caps db.listings
    → IsCapped caps (create_listing env caps host input db).1.listings
unfolding create_listing
create_listing-IsCapped env caps host input db v c =
    catch_keeps (λ d. IsCapped caps d.listings)
      (with_transaction (create_listing_body env caps host input)) db
      (with_transaction_keeps (λ d. IsCapped caps d.listings)
        (create_listing_body env caps host input) db c
        λ r db' e.
          let (_, after, _, fits, _) = body_writes env caps host input db e in
          subst (λ (d : Db). IsCapped caps d.listings) (sym after)
            (listed-IsCapped env caps host (caps.local_date_for input.scheduled_start) input db v c
              fits))

-- A listing that is created is active, pending moderation, with every seat free and the local
-- date of its start; its geocoding and its moderation scan are committed with it, and nothing
-- else changes.
pub create_listing_writes :
    (env : Env) (caps : Locale) (host : ℕ) (input : NewListing) (db : Db) (r : ℕ × Listing)
    (db' : Db)
    → create_listing env caps host input db ≡ (ok r, db')
    → (r ≡ (db.next_id, listing_row env host (caps.local_date_for input.scheduled_start) input))
      × (db' ≡ listed env host (caps.local_date_for input.scheduled_start) input db)
      × (1 ≤ input.seat_capacity)
unfolding create_listing
create_listing_writes env caps host input db r db' e =
    let inner = catch_ok (with_transaction (create_listing_body env caps host input)) e in
    let step = with_transaction_inv (create_listing_body env caps host input) inner in
    let (row, after, seats, _, _) = body_writes env caps host input db step in (row, after, seats)
