-- ===== src/Bookings/Seats.antt =====
-- The seats of a listing and the bookings that hold them: the invariant of the two tables, and
-- the updates that keep it.
use homeplate.Base.{
  ℕ, ◌+◌, ◌≤◌, ◌<◌, ◌≡◌, sym, Bool, true, false, ◌&&◌, some, arith, inl, inr, Option-cases,
  Bool-cases, ◌==◌, tally,
}
use mathlib.Core.Path.{subst}
use homeplate.Table.{Table, lookup, modify, count}
use homeplate.Table.Laws.{lookup-modify, count-modify}
use homeplate.Database.{Db, Env, Listing, Booking, BookingStatus, Job}
use homeplate.Bookings.Repo.{is_bookable}
use homeplate.Bookings.Reserve.{taken, reserved}

-- Pending and running bookings hold a seat.
abbrev pub is_holding : BookingStatus → Bool
is_holding BookingStatus.pending = true
is_holding BookingStatus.in_progress = true
is_holding _ = false

abbrev pub holds_seat : ℕ → Booking → Bool
holds_seat listing b = b.listing_id == listing && is_holding b.status

abbrev pub seats_held : ℕ → Db → ℕ
seats_held listing db = count (holds_seat listing) db.bookings

-- A completed booking has both confirmations.
abbrev pub IsConfirmed : Booking → Type 0
IsConfirmed b =
    b.status ≡ BookingStatus.completed
    → (b.host_confirmed_completion ≡ true) × (b.guest_confirmed_completion ≡ true)

pub record IsSound (db : Db) : Type 0 where
  -- No listing has more seats free and held than it offers.
  pub seats :
      (k : ℕ) (l : Listing)
      → lookup k db.listings ≡ some l
      → l.seats_remaining + seats_held k db ≤ l.seat_capacity
  -- Ids not yet given out name no listing, and no booking holds a seat of theirs.
  pub listing_ids : (k : ℕ) (l : Listing) → lookup k db.listings ≡ some l → k < db.next_id
  pub unheld : (k : ℕ) → db.next_id ≤ k → seats_held k db ≡ 0
  -- The constraint bookings_completed_requires_both_confirmations.
  pub confirmed : (k : ℕ) (b : Booking) → lookup k db.bookings ≡ some b → IsConfirmed b

abbrev with_jobs : Db → Table Job → ℕ → Db
with_jobs db jobs next = record db { jobs = jobs; next_id = next }

pub with_jobs-IsSound :
    {db : Db} (jobs : Table Job) (next : ℕ)
    → db.next_id ≤ next
    → IsSound db
    → IsSound (record db { jobs = jobs; next_id = next })
with_jobs-IsSound jobs next h v = record {
  seats = v.seats;
  listing_ids = λ k l e. omega (arith, v.listing_ids k l e);
  unheld = λ k g. v.unheld k (omega arith);
  confirmed = v.confirmed;
}

pub same_tables-IsSound :
    (db db' : Db)
    → db'.listings ≡ db.listings
    → db'.bookings ≡ db.bookings
    → db.next_id ≤ db'.next_id
    → IsSound db
    → IsSound db'
same_tables-IsSound db db' ls bs le v =
    subst IsSound
      (λ i. record {
        listings = sym ls i;
        bookings = sym bs i;
        jobs = db'.jobs;
        reviews = db'.reviews;
        messages = db'.messages;
        safety_alerts = db'.safety_alerts;
        decisions = db'.decisions;
        queue = db'.queue;
        users = db'.users;
        host_profiles = db'.host_profiles;
        verification_tokens = db'.verification_tokens;
        data_requests = db'.data_requests;
        media_objects = db'.media_objects;
        notification_attempts = db'.notification_attempts;
        access_log = db'.access_log;
        sessions = db'.sessions;
        next_id = db'.next_id;
      })
      (record {
        seats = v.seats;
        listing_ids = λ k l e. omega (arith, v.listing_ids k l e);
        unheld = λ k g. v.unheld k (omega arith);
        confirmed = v.confirmed;
      })

-- A reservation takes one seat and holds one.
pub reserved-IsSound :
    (env : Env) (guest listing_id : ℕ) (db : Db) (jobs : Table Job) (next : ℕ) {l : Listing}
    → IsSound db
    → lookup listing_id db.listings ≡ some l
    → is_bookable env l ≡ true
    → db.next_id + 1 ≤ next
    → IsSound (reserved env guest listing_id db jobs next)
reserved-IsSound env guest listing_id db jobs next {l} v e h le = record {
  seats = λ k x ex.
      ground (arith, lookup-modify k listing_id taken db.listings, v.seats k l, v.seats k x);
  listing_ids = λ k x ex. ground (
    arith,
    lookup-modify k listing_id taken db.listings,
    v.listing_ids k x,
    v.listing_ids listing_id l e,
  );
  unheld = λ k g. ground (arith, v.unheld k (omega arith), v.listing_ids listing_id l e);
  confirmed = λ k b eb done. ground (arith, v.confirmed k b);
}

modified-IsConfirmed :
    (id : ℕ) (f : Booking → Booking) (t : Table Booking) (k : ℕ) (x : Booking)
    → ((k : ℕ) (b : Booking) → lookup k t ≡ some b → IsConfirmed b)
    → ((b : Booking) → lookup id t ≡ some b → IsConfirmed (f b))
    → lookup k (modify id f t) ≡ some x
    → IsConfirmed x
modified-IsConfirmed id f t k x old new ex = elim (Option-cases (lookup k t)) [
  | inl gone ↦ absurd (ground (arith, lookup-modify k id f t))
  | inr (b, eb) ↦ elim (Bool-cases (k == id)) [
    | inl same ↦
        let at : lookup id t ≡ some b = ground (arith, same) in
        let moved : f b ≡ x = ground (arith, lookup-modify k id f t) in
        subst IsConfirmed moved (new b at)
    | inr other ↦
        let kept : b ≡ x = ground (arith, lookup-modify k id f t) in
        subst IsConfirmed kept (old k b eb)
  ]
]

-- A change of one booking that holds no new seat.
pub modify_booking-IsSound :
    (id : ℕ) (f : Booking → Booking) (db : Db)
    → IsSound db
    → ((k : ℕ) → count (holds_seat k) (modify id f db.bookings) ≤ seats_held k db)
    → ((b : Booking) → lookup id db.bookings ≡ some b → IsConfirmed (f b))
    → IsSound (record db { bookings = modify id f db.bookings })
modify_booking-IsSound id f db v fewer both = record {
  seats = λ k l e. omega (arith, fewer k, v.seats k l e);
  listing_ids = v.listing_ids;
  unheld = λ k g. omega (arith, fewer k, v.unheld k g);
  confirmed = λ k x ex. modified-IsConfirmed id f db.bookings k x v.confirmed both ex;
}

abbrev pub freed : Listing → Listing
freed l = record l { seats_remaining = l.seats_remaining + 1 }

-- A booking that is cancelled now, and otherwise as it was.
abbrev pub called_off : ℕ → Booking → Booking
called_off now b = record {
  listing_id = b.listing_id;
  guest_id = b.guest_id;
  status = BookingStatus.cancelled;
  host_confirmed_completion = b.host_confirmed_completion;
  guest_confirmed_completion = b.guest_confirmed_completion;
  cancelled_at = some now;
  completed_at = b.completed_at;
  created_at = b.created_at;
}

-- The state that a cancellation leaves, less its jobs.
abbrev pub released : ℕ → ℕ → ℕ → Db → Db
released now id listing_id db = record db {
  listings = modify listing_id freed db.listings;
  bookings = modify id (called_off now) db.bookings;
}

pub held-cancelled :
    (now id k : ℕ) (db : Db) {b : Booking}
    → lookup id db.bookings ≡ some b
    → count (holds_seat k) (modify id (called_off now) db.bookings) + tally (holds_seat k b)
      ≡ seats_held k db
held-cancelled now id k db {b} e =
    ground (arith, count-modify (holds_seat k) id (called_off now) b db.bookings e)

-- A cancelled booking gives back the one seat that it held.
pub released-IsSound :
    (now id : ℕ) (db : Db) {b : Booking}
    → IsSound db
    → lookup id db.bookings ≡ some b
    → b.status ≡ BookingStatus.pending
    → IsSound (released now id b.listing_id db)
released-IsSound now id db {b} v e p = record {
  seats = λ k x ex. elim (Option-cases (lookup k db.listings)) [
    | inl gone ↦ ground (arith, lookup-modify k b.listing_id freed db.listings)
    | inr (l, el) ↦ ground (
      arith,
      lookup-modify k b.listing_id freed db.listings,
      v.seats k l el,
      held-cancelled now id k db e,
    )
  ];
  listing_ids = λ k x ex. elim (Option-cases (lookup k db.listings)) [
    | inl gone ↦ ground (arith, lookup-modify k b.listing_id freed db.listings)
    | inr (l, el) ↦ v.listing_ids k l el
  ];
  unheld = λ k g. omega (arith, held-cancelled now id k db e, v.unheld k g);
  confirmed = λ k x ex.
      modified-IsConfirmed id (called_off now) db.bookings k x v.confirmed (λ c ec done. cc) ex;
}
