-- ===== src/Listings/Closing.antt =====
-- cancelListing as a whole: the listing and its active bookings are cancelled together, once.
use mathlib.Core.Path.{subst}
use homeplate.Base.{
  ◌⊎◌, ℕ, ◌≤◌, ◌≡◌, refl, sym, ap, ◌∙◌, true, none, some, [], ◌∷◌, arith, inl, inr, Option-cases,
  length,
}
use homeplate.Table.{Table, lookup, modify, update_all, select}
use homeplate.Table.Laws.{
  lookup-modify, lookup-update_all, count-update_all-le, count-update_all-none,
}
use homeplate.Database.{
  Db, Env, Listing, ListingStatus, Booking, Job, JobType, Payload, DedupeKey, Event, ok,
  with_transaction_keeps, with_transaction_ok, with_transaction_inv,
}
use homeplate.Outbox.Enqueue.{enqueue}
use homeplate.Outbox.Keys.{
  Extends, Extends-mono, Extends-KeepsKeys, IsQueued, Defers, has_key, Defers-pure, Defers-bind,
  enqueue-Defers,
}
use homeplate.Bookings.Repo.{cancel_at}
use homeplate.Bookings.Seats.{IsSound, seats_held, holds_seat, with_jobs-IsSound}
use homeplate.Listings.Mehko.{Locale}
use homeplate.Listings.Service.{
  closed, active_on, cancel_active_bookings, notify_cancelled, close_listing, cancel_listing_body,
  cancel_listing,
}
use homeplate.Listings.Caps.{IsCapped, modify-IsCapped}

-- The guest of every cancelled booking is told.
abbrev pub ToldAll : Table Booking → Table Job → Type 0
ToldAll [] jobs = Unit {0}
ToldAll ((id, b) ∷ rest) jobs =
    (has_key (DedupeKey.notify_listing_cancelled id) jobs ≡ true) × ToldAll rest jobs

-- What tells one of the guests: a notification of the cancellation, due at once, under the key of
-- a booking of the list.
abbrev pub CancellationJob : Env → Table Booking → DedupeKey → Job → Type 0
CancellationJob env [] k j = ⊥
CancellationJob env ((id, b) ∷ rest) k j =
    IsQueued (DedupeKey.notify_listing_cancelled id) JobType.notify_booking
      (Payload.notification id Event.listing_cancelled b.guest_id) env.now k j
    ⊎ CancellationJob env rest k j

notify_cancelled-Defers :
    (env : Env) (affected : Table Booking) (db : Db)
    → Defers
        (CancellationJob env affected)
        (notify_cancelled env affected)
        db
        (λ _ jobs. ToldAll affected jobs)
unfolding notify_cancelled
notify_cancelled-Defers env [] db = Defers-pure (λ _ jobs. Unit {0}) tt db tt
notify_cancelled-Defers env ((id, b) ∷ rest) db =
    Defers-bind
      (enqueue env JobType.notify_booking
        (Payload.notification id Event.listing_cancelled b.guest_id)
        (some (DedupeKey.notify_listing_cancelled id)) none)
      (λ _. notify_cancelled env rest) db
      (λ _ t. has_key (DedupeKey.notify_listing_cancelled id) t ≡ true)
      (λ _ t. ToldAll ((id, b) ∷ rest) t)
      (enqueue-Defers (CancellationJob env ((id, b) ∷ rest)) env JobType.notify_booking
        (Payload.notification id Event.listing_cancelled b.guest_id)
        (DedupeKey.notify_listing_cancelled id) none db
        (inl (refl, (refl, refl, refl, refl, refl))))
      λ e t n mine.
        let (u, t', n', eq, le, keeps, told) =
          notify_cancelled-Defers env rest (record db { jobs = t; next_id = n }) in
        (
          u,
          t',
          n',
          eq,
          le,
          Extends-mono (λ k j new. inr new) keeps,
          (Extends-KeepsKeys keeps (DedupeKey.notify_listing_cancelled id) mine, told),
        )

-- The listing closed, and its pending and running bookings cancelled.
abbrev pub shut : Env → ℕ → Db → Db
shut env id db = record db {
  listings = modify id closed db.listings;
  bookings = update_all (active_on id) (cancel_at env.now) db.bookings;
}

close_listing_ok :
    (env : Env) (id : ℕ) (current : Listing) (db : Db)
    → (jobs : Table Job) × (next : ℕ) × (close_listing env id current db ≡ (
      ok (closed current, length (select (active_on id) db.bookings)),
      record (shut env id db) { jobs = jobs; next_id = next },
    ))
      × (db.next_id ≤ next)
      × Extends (CancellationJob env (select (active_on id) db.bookings)) db.jobs jobs
      × ToldAll (select (active_on id) db.bookings) jobs
unfolding close_listing cancel_active_bookings
close_listing_ok env id current db =
    let (u, t, n, eq, le, keeps, told) =
      notify_cancelled-Defers env (select (active_on id) db.bookings) (shut env id db) in
    (t, n, ground (arith, eq), le, keeps, told)

shut-IsSound : (env : Env) (id : ℕ) (db : Db) → IsSound db → IsSound (shut env id db)
shut-IsSound env id db v = record {
  seats = λ k x ex.
      let fewer = held-shut k in
      elim (Option-cases (lookup k db.listings)) [
        | inl gone ↦ absurd (ground (arith, lookup-modify k id closed db.listings))
        | inr (l, el) ↦ ground (arith, lookup-modify k id closed db.listings, v.seats k l el, fewer)
      ];
  listing_ids = λ k x ex. elim (Option-cases (lookup k db.listings)) [
    | inl gone ↦ absurd (ground (arith, lookup-modify k id closed db.listings))
    | inr (l, el) ↦ v.listing_ids k l el
  ];
  unheld = λ k h. omega (arith, held-shut k, v.unheld k h);
  confirmed = λ k x ex. elim (Option-cases (lookup k db.bookings)) [
    | inl gone ↦
        absurd (ground (arith, lookup-update_all k (active_on id) (cancel_at env.now) db.bookings))
    | inr (b, eb) ↦ λ done. ground (
      arith,
      lookup-update_all k (active_on id) (cancel_at env.now) db.bookings,
      v.confirmed k b eb,
    )
  ];
}
  where
    held-shut : (k : ℕ) → seats_held k (shut env id db) ≤ seats_held k db
    held-shut k =
        count-update_all-le (holds_seat k) (active_on id) (cancel_at env.now) db.bookings
          (λ b. ground arith)

-- How a cancellation can succeed: a repeat, or the cascade.
abbrev Succeeds : Env → ℕ → ℕ → Db → Listing × ℕ → Db → Type 0
Succeeds env user id db r db' =
    (l : Listing) × (lookup id db.listings ≡ some l)
    × (l.host_id ≡ user)
    × (((l.status ≡ ListingStatus.cancelled) × (db' ≡ db) × (r ≡ (l, 0)))
        ⊎ ((l.status ≡ ListingStatus.active) × (close_listing env id l db ≡ (ok r, db'))))

body-Succeeds :
    (env : Env) (user id : ℕ) (db : Db) (r : Listing × ℕ) (db' : Db)
    → cancel_listing_body env user id db ≡ (ok r, db')
    → Succeeds env user id db r db'
unfolding cancel_listing_body
body-Succeeds env user id db r db' e = elim (Option-cases (lookup id db.listings)) [
  | inl missing ↦ absurd (ground arith)
  | inr (l, found) ↦ (l, found, ground (arith, found), ground (arith, found))
]

-- From a sound state, a call of cancelListing leaves a sound state, whether it succeeds or not.
pub cancel_listing-IsSound :
    (env : Env) (user id : ℕ) (db : Db) → IsSound db → IsSound (cancel_listing env user id db).1
unfolding cancel_listing
cancel_listing-IsSound env user id db v =
    with_transaction_keeps IsSound (cancel_listing_body env user id) db v λ r db' e.
      let (l, found, mine, how) = body-Succeeds env user id db r db' e in
      elim how [
        | inl (_, same, _) ↦ subst IsSound (sym same) v
        | inr (_, moved) ↦
            let (jobs, next, eq, le, _, _) = close_listing_ok env id l db in
            subst IsSound (ap (λ r. r.1) (sym eq ∙ moved))
              (with_jobs-IsSound {db = shut env id db} jobs next le (shut-IsSound env id db v))
      ]

-- From listings within the caps, a call of cancelListing leaves them within the caps.
pub cancel_listing-IsCapped :
    (env : Env) (caps : Locale) (user id : ℕ) (db : Db)
    → IsCapped caps db.listings
    → IsCapped caps (cancel_listing env user id db).1.listings
unfolding cancel_listing
cancel_listing-IsCapped env caps user id db c =
    with_transaction_keeps (λ d. IsCapped caps d.listings) (cancel_listing_body env user id) db c
      λ r db' e.
        let (l, found, mine, how) = body-Succeeds env user id db r db' e in
        elim how [
          | inl (_, same, _) ↦ subst (λ (d : Db). IsCapped caps d.listings) (sym same) c
          | inr (_, moved) ↦
              let (jobs, next, eq, le, _, _) = close_listing_ok env id l db in
              subst (λ (d : Db). IsCapped caps d.listings) (ap (λ r. r.1) (sym eq ∙ moved))
                (modify-IsCapped caps id closed db.listings (λ host from to j x. ground arith)
                  (λ host from to j x. ground arith) c)
        ]

-- The host of an active listing cancels it: in one transaction the listing and every booking
-- that held a seat of it are cancelled, no seat of it stays held, and no job is lost. The key of
-- each of those bookings has a notification: the one that it had before, or a new one to a guest of
-- those bookings, due at once. The count of free seats in the row stays as it was.
pub cancel_listing_cascades :
    (env : Env) (user id : ℕ) (db : Db) (l : Listing)
    → lookup id db.listings ≡ some l
    → l.host_id ≡ user
    → l.status ≡ ListingStatus.active
    → (jobs : Table Job) × (next : ℕ) × (cancel_listing env user id db ≡ (
      ok (closed l, length (select (active_on id) db.bookings)),
      record (shut env id db) { jobs = jobs; next_id = next },
    ))
      × (seats_held id (shut env id db) ≡ 0)
      × (lookup id (shut env id db).listings ≡ some (closed l))
      × ((closed l).seats_remaining ≡ l.seats_remaining)
      × Extends (CancellationJob env (select (active_on id) db.bookings)) db.jobs jobs
      × ToldAll (select (active_on id) db.bookings) jobs
unfolding cancel_listing cancel_listing_body
cancel_listing_cascades env user id db l found mine active =
    let (jobs, next, eq, le, keeps, told) = close_listing_ok env id l db in
    (
      jobs,
      next,
      with_transaction_ok (cancel_listing_body env user id)
          (ground (arith, found, mine, active, eq)),
      count-update_all-none (holds_seat id) (active_on id) (cancel_at env.now) db.bookings
          (λ b h. ground arith) (λ b. ground arith),
      ground (arith, lookup-modify id id closed db.listings),
      refl,
      keeps,
      told,
    )

abbrev Again : Env → ℕ → ℕ → Db → Type 0
Again env user id db = (l : Listing) × (cancel_listing env user id db ≡ (ok (l, 0), db))

noop :
    (env : Env) (user id : ℕ) (db : Db) (l : Listing)
    → lookup id db.listings ≡ some l
    → l.host_id ≡ user
    → l.status ≡ ListingStatus.cancelled
    → cancel_listing env user id db ≡ (ok (l, 0), db)
unfolding cancel_listing cancel_listing_body
noop env user id db l found mine gone =
    with_transaction_ok (cancel_listing_body env user id) (ground (arith, found, mine, gone))

-- After a call of cancelListing that succeeded, a repeat by the same user, by any other clock,
-- succeeds, cancels nothing more and changes nothing.
pub cancel_listing_repeat :
    (env later : Env) (user id : ℕ) (db : Db) (r : Listing × ℕ) (db' : Db)
    → cancel_listing env user id db ≡ (ok r, db')
    → (l : Listing) × (cancel_listing later user id db' ≡ (ok (l, 0), db'))
unfolding cancel_listing
cancel_listing_repeat env later user id db r db' e =
    let step = with_transaction_inv (cancel_listing_body env user id) e in
    let (l, found, mine, how) = body-Succeeds env user id db r db' step in
    elim how [
      | inl (gone, same, _) ↦
          subst (Again later user id) (sym same) (l, noop later user id db l found mine gone)
      | inr (_, moved) ↦
          let (jobs, next, eq, le, _, _) = close_listing_ok env id l db in
          subst (Again later user id) (ap (λ r. r.1) (sym eq ∙ moved)) (
            closed l,
            noop later user id _ (closed l) (ground (arith, lookup-modify id id closed db.listings))
                mine refl,
          )
    ]
