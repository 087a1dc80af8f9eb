-- ===== src/Listings/Disclosure.antt =====
-- The precise location of a listing: who sees it, what is logged, and when guests lose sight of it.
use homeplate.Base.{ℕ, ◌≡◌, ◌≤◌, ap, ◌∙◌, true, some, List, [], ◌∷◌, arith, ◌⊎◌, inl, inr}
use homeplate.Table.{Table, lookup, count}
use mathlib.Core.Path.{subst}
use homeplate.Database.{Auth, Db, Env, Listing, SafetyAlert, ListingStatus, Booking}
use homeplate.Bookings.Seats.{holds_seat, seats_held}
use homeplate.Listings.Service.{closed, cancel_listing}
use homeplate.Listings.Closing.{shut, cancel_listing_cascades}
use homeplate.Listings.Access.{AccessEntry, is_live_guest, has_alert, can_view_precise_location}
use homeplate.Listings.Sight.{sight_iff}

-- Who has a live booking holds a seat.
live_guest-le :
    (guest id : ℕ) (t : Table Booking) → count (is_live_guest guest id) t ≤ count (holds_seat id) t
live_guest-le guest id [] = omega arith
live_guest-le guest id ((i, b) ∷ t) = ground (arith, live_guest-le guest id t)

-- When the host of an active listing has cancelled it, no guest sees its precise location any more:
-- who still sees it is the host, or a moderator while an alert stands on one of its bookings.
pub cancel_listing_hides :
    (env : Env) (user id : ℕ) (db : Db) (l : Listing) (v : Auth) (log log' : List AccessEntry)
    → lookup id db.listings ≡ some l
    → l.host_id ≡ user
    → l.status ≡ ListingStatus.active
    → can_view_precise_location (some v) id (cancel_listing env user id db).1 log ≡ (true, log')
    → (v.user_id ≡ user)
      ⊎ ((v.is_moderator ≡ true)
          × (has_alert id (cancel_listing env user id db).1.bookings db.safety_alerts ≡ true))
cancel_listing_hides env user id db l v log log' found mine live sight =
    let (jobs, next, ran, none_held, shut_row, _, _, _) =
      cancel_listing_cascades env user id db l found mine live in
    let after = (cancel_listing env user id db).1 in
    let same : after ≡ record (shut env id db) { jobs = jobs; next_id = next } =
      ap (λ p. p.1) ran in
    let same_alerts : after.safety_alerts ≡ db.safety_alerts =
      ap (λ (d : Db). d.safety_alerts) same in
    let row : lookup id after.listings ≡ some (closed l) =
      ap (λ (d : Db). lookup id d.listings) same ∙ shut_row in
    let empty : seats_held id after ≡ 0 = ap (λ (d : Db). seats_held id d) same ∙ none_held in
    let (x, is_row, how) = (sight_iff v id after log log').0 sight in
    elim how [
      | inl (host, _) ↦ inl (ground (arith, row, is_row, host, mine))
      | inr (_, inl (guest, _)) ↦
          absurd (omega (arith, guest, empty, live_guest-le v.user_id id after.bookings))
      | inr (_, inr (_, role, alert, _)) ↦ inr (
        role,
        subst
            (λ (t : Table SafetyAlert).
              has_alert id (cancel_listing env user id db).1.bookings t ≡ true)
            same_alerts alert,
      )
    ]
