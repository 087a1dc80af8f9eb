-- ===== src/Reviews/Creation.antt =====
-- createReview on every branch: the review with its scan job, or a refusal and nothing.
use mathlib.Core.Path.{subst}
use homeplate.Base.{
  some, ℕ, suc, ◌≡◌, ◌≤◌, refl, true, false, ◌&&◌, ◌∷◌, arith, inl, inr, ◌⊎◌, Bool-cases, String,
  ltb, leb,
}
use homeplate.Table.{count}
use homeplate.Database.{
  Review, ModerationStatus, Db, Env, ok, err, Booking, Listing, ContentType, Failure,
  with_transaction_ok, with_transaction_err,
}
use homeplate.Bookings.Repo.{Role}
use homeplate.Bookings.Participants.{IsParty, IsStranger, participant-cases}
use homeplate.Messaging.Posting.{submitted, submit_ok}
use homeplate.Reviews.Service.{
  is_completed, new_review, insert_review, is_review_of, target_of, write_review, create_review,
  second_to_exists,
}

-- The party of the booking that the author is not.
abbrev pub other_party : Booking → Listing → Role → ℕ
other_party b l Role.guest = l.host_id
other_party b l Role.host = b.guest_id

target_of-other :
    (b : Booking) (l : Listing) (role : Role) → target_of b l role ≡ other_party b l role
target_of-other b l Role.guest = refl
target_of-other b l Role.host = refl

-- The row of a review: its author's, about the target, pending, written now.
abbrev pub pending_review : Env → (booking author target rating : ℕ) → String → Review
pending_review env booking author target rating comment = record {
  booking_id = booking;
  author_id = some author;
  target_user_id = some target;
  rating = rating;
  body = some comment;
  moderation_status = ModerationStatus.pending;
  created_at = env.now;
}

-- The database with a review and its scan job.
abbrev pub reviewed : Env → ℕ → ℕ → ℕ → ℕ → String → Db → Db
reviewed env booking user target rating comment db =
    submitted env ContentType.review db.next_id (record db {
      reviews = (db.next_id, pending_review env booking user target rating comment) ∷ db.reviews;
      next_id = suc db.next_id;
    })

-- Why a review is refused.
abbrev pub ReviewRefused : ℕ → ℕ → ℕ → Db → Failure → Type 0
ReviewRefused user booking rating db x =
    IsStranger user booking db x
    ⊎ ((b : Booking) × (l : Listing) × (role : Role) × IsParty user booking db b l role
        × (((x ≡ Failure.booking_not_completed) × (is_completed b.status ≡ false))
            ⊎ ((is_completed b.status ≡ true)
                × (((x ≡ Failure.check_violation) × (leb 1 rating && leb rating 5 ≡ false))
                    ⊎ ((x ≡ Failure.review_exists)
                        × (1 ≤ count (is_review_of booking user) db.reviews))))))

-- A first review by a participant of a completed booking, with a rating from 1 to 5.
abbrev pub IsReviewable : ℕ → ℕ → ℕ → Db → Booking → Listing → Role → Type 0
IsReviewable user booking rating db b l role =
    IsParty user booking db b l role
    × (is_completed b.status ≡ true)
    × (1 ≤ rating)
    × (rating ≤ 5)
    × (count (is_review_of booking user) db.reviews ≡ 0)

refused_with :
    (env : Env) (user booking rating : ℕ) (comment : String) (x y : Failure) (db mid : Db)
    → write_review env user booking rating comment db ≡ (err y, mid)
    → second_to_exists y ≡ x
    → create_review env user booking rating comment db ≡ (err x, db)
unfolding create_review
refused_with env user booking rating comment x y db mid thrown is =
    ground (arith, with_transaction_err (write_review env user booking rating comment) thrown)

stranger-kept :
    (user booking : ℕ) (db : Db) (x : Failure)
    → IsStranger user booking db x
    → second_to_exists x ≡ x
stranger-kept user booking db x (inl (is, _)) = ground arith
stranger-kept user booking db x (inr (_, _, is, _, _)) = ground arith

-- The first review of a completed booking by each of its participants, with a rating from 1 to 5,
-- is written about the other party, pending and together with its scan job; everything else is
-- refused, with the reason, and nothing is written.
pub create_review_branches :
    (env : Env) (user booking rating : ℕ) (comment : String) (db : Db)
    → ((b : Booking) × (l : Listing) × (role : Role) × IsReviewable user booking rating db b l role
        × (create_review env user booking rating comment db ≡ (
          ok (db.next_id, pending_review env booking user (other_party b l role) rating comment),
          reviewed env booking user (other_party b l role) rating comment db,
        )))
      ⊎ ((x : Failure) × ReviewRefused user booking rating db x
          × (create_review env user booking rating comment db ≡ (err x, db)))
unfolding create_review insert_review
create_review_branches env user booking rating comment db =
    elim (participant-cases user booking db) [
      | inr (x, why, ran) ↦ inr (
        x,
        inl why,
        refused_with env user booking rating comment x x db db (ground arith)
            (stranger-kept user booking db x why),
      )
      | inl (b, l, role, is, ran) ↦ elim (Bool-cases (is_completed b.status)) [
        | inr early ↦ inr (
          Failure.booking_not_completed,
          inr (b, l, role, is, inl (refl, early)),
          refused_with env user booking rating comment _ Failure.booking_not_completed db db
              (ground arith) refl,
        )
        | inl done ↦ elim (Bool-cases (leb 1 rating && leb rating 5)) [
          | inr odd ↦ inr (
            Failure.check_violation,
            inr (b, l, role, is, inr (done, inl (refl, odd))),
            refused_with env user booking rating comment _ Failure.check_violation db db
                (ground arith) refl,
          )
          | inl fair ↦ elim (Bool-cases (ltb 0 (count (is_review_of booking user) db.reviews))) [
            | inl again ↦ inr (
              Failure.review_exists,
              inr (b, l, role, is, inr (done, inr (refl, ground arith))),
              refused_with env user booking rating comment _ Failure.second_review db db
                  (ground arith) refl,
            )
            | inr first ↦
                let target = target_of b l role in
                let before : Db = record db {
                  reviews =
                      (db.next_id, new_review env booking user target rating comment) ∷ db.reviews;
                  next_id = suc db.next_id;
                } in
                let (e, queued) = submit_ok env ContentType.review db.next_id before in
                let wrote : write_review env user booking rating comment db ≡ (
                  ok (db.next_id, new_review env booking user target rating comment),
                  reviewed env booking user target rating comment db,
                ) =
                  ground arith in
                inl (
                  b,
                  l,
                  role,
                  (is, done, ground arith, ground arith, ground arith),
                  subst
                      (λ x. create_review env user booking rating comment db ≡ (
                        ok (db.next_id, pending_review env booking user x rating comment),
                        reviewed env booking user x rating comment db,
                      ))
                      (target_of-other b l role)
                      (ground (
                        arith,
                        with_transaction_ok (write_review env user booking rating comment) wrote,
                      )),
                )
          ]
        ]
      ]
    ]
