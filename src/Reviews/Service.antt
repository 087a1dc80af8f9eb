-- ===== src/Reviews/Service.antt =====
-- src/modules/reviews/service.js and repo.js: createReview, for a review with no photos.
use homeplate.Base.{
  ℕ, suc, Bool, true, false, ◌&&◌, not, some, ◌∷◌, String, ltb, leb, ◌==◌, if◌then◌else◌,
}
use homeplate.Table.{count}
use homeplate.Database.{
  Env, Tx, ok, err, ◌>>=◌, ◌>>◌, pure, throw_if, with_transaction, Booking, BookingStatus, Listing,
  Review, ModerationStatus, ContentType, Failure,
}
use homeplate.Bookings.Repo.{Role, is_guest}
use homeplate.Bookings.Participants.{participant_or_throw}
use homeplate.Moderation.Repo.{is_by}
use homeplate.Moderation.Service.{submit_for_review}

abbrev pub is_completed : BookingStatus → Bool
is_completed BookingStatus.completed = true
is_completed _ = false

abbrev pub new_review : Env → ℕ → ℕ → ℕ → ℕ → String → Review
new_review env booking author target rating body = record {
  booking_id = booking;
  author_id = some author;
  target_user_id = some target;
  rating = rating;
  body = some body;
  moderation_status = ModerationStatus.pending;
  created_at = env.now;
}

-- A row that reviews_one_per_booking_author compares with.
abbrev pub is_review_of : ℕ → ℕ → Review → Bool
is_review_of booking author r = r.booking_id == booking && is_by author r.author_id

-- The INSERT, with the CHECK on the rating and the UNIQUE on the booking and its author.
unfoldable pub insert_review : Env → ℕ → ℕ → ℕ → ℕ → String → Tx (ℕ × Review)
insert_review env booking author target rating body db =
    let r = new_review env booking author target rating body in
    if not (leb 1 rating && leb rating 5)
    then (err Failure.check_violation, db)
    else if ltb 0 (count (is_review_of booking author) db.reviews)
    then (err Failure.second_review, db)
    else (
      ok (db.next_id, r),
      record db { reviews = (db.next_id, r) ∷ db.reviews; next_id = suc db.next_id },
    )

-- The guest reviews the host, the host the guest.
abbrev pub target_of : Booking → Listing → Role → ℕ
target_of b l role = if is_guest role then l.host_id else b.guest_id

-- The duplicate becomes the service's own refusal.
abbrev pub second_to_exists : Failure → Failure
second_to_exists Failure.second_review = Failure.review_exists
second_to_exists x = x

abbrev pub catch_second : {A : Type 0} → Tx A → Tx A
catch_second m db = elim (m db).0 [
  | ok a ↦ (ok a, (m db).1)
  | err x ↦ (err (second_to_exists x), (m db).1)
]

abbrev pub write_review : Env → ℕ → ℕ → ℕ → String → Tx (ℕ × Review)
write_review env user booking rating comment = participant_or_throw user booking >>= λ (b, l, role).
    throw_if (not (is_completed b.status)) Failure.booking_not_completed
    >> (insert_review env booking user (target_of b l role) rating comment >>= λ review.
        submit_for_review env ContentType.review review.0 >> pure review)

unfoldable pub create_review : Env → ℕ → ℕ → ℕ → String → Tx (ℕ × Review)
create_review env user booking rating comment =
    catch_second (with_transaction (write_review env user booking rating comment))
