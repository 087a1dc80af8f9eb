-- ===== src/Bookings/Participants.antt =====
-- findParticipantBooking (src/modules/bookings/repo.js), and the refusals of an unknown booking
-- and of a stranger, which messaging, reviews and safety alerts each put behind it.
use homeplate.Base.{ℕ, ◌≡◌, ◌⊎◌, inl, inr, Option, none, some, arith, Option-cases}
use homeplate.Database.{
  Db, Tx, ok, err, ◌>>=◌, pure, query, some_or_throw, Booking, Listing, Failure,
}
use homeplate.Bookings.Repo.{Role, select_booking_with_listing}
use homeplate.Bookings.Service.{role_of}

pub record Participant : Type 0 where
  pub booking : Booking
  pub listing : Listing
  pub role : Option Role

unfoldable pub find_participant_booking : ℕ → ℕ → Db → Option Participant
find_participant_booking user booking db = elim (select_booking_with_listing booking db) [
  | none ↦ none
  | some (b, l) ↦ some (record { booking = b; listing = l; role = role_of user b l })
]

unfoldable pub participant_or_throw : ℕ → ℕ → Tx (Booking × Listing × Role)
participant_or_throw user booking = query (find_participant_booking user booking) >>= λ found.
    some_or_throw found Failure.booking_not_found >>= λ p.
    some_or_throw p.role Failure.not_participant >>= λ role. pure (p.booking, p.listing, role)

-- The user's part in a booking.
abbrev pub IsParty : ℕ → ℕ → Db → Booking → Listing → Role → Type 0
IsParty user booking db b l role =
    (select_booking_with_listing booking db ≡ some (b, l)) × (role_of user b l ≡ some role)

-- Why someone is turned away.
abbrev pub IsStranger : ℕ → ℕ → Db → Failure → Type 0
IsStranger user booking db x =
    ((x ≡ Failure.booking_not_found) × (select_booking_with_listing booking db ≡ none))
    ⊎ ((b : Booking) × (l : Listing) × (x ≡ Failure.not_participant)
        × (select_booking_with_listing booking db ≡ some (b, l))
        × (role_of user b l ≡ none))

pub participant-cases :
    (user booking : ℕ) (db : Db)
    → ((b : Booking) × (l : Listing) × (role : Role) × IsParty user booking db b l role
        × (participant_or_throw user booking db ≡ (ok (b, l, role), db)))
      ⊎ ((x : Failure) × IsStranger user booking db x
          × (participant_or_throw user booking db ≡ (err x, db)))
unfolding participant_or_throw find_participant_booking
participant-cases user booking db = elim (Option-cases (select_booking_with_listing booking db)) [
  | inl gone ↦ inr (Failure.booking_not_found, inl (ground arith, gone), ground arith)
  | inr ((b, l), found) ↦ elim (Option-cases (role_of user b l)) [
    | inl stranger ↦
        inr (Failure.not_participant, inr (b, l, ground arith, found, stranger), ground arith)
    | inr (role, is) ↦ inl (b, l, role, (found, is), ground arith)
  ]
]
