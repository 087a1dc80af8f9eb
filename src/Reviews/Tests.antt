-- ===== src/Reviews/Tests.antt =====
-- Reviews at concrete inputs.
use homeplate.Base.{◌≡◌, ◌⊎◌, [], ◌∷◌}
use homeplate.Database.{Db, ok, err, Booking, BookingStatus, Listing, Failure}
use homeplate.Bookings.Repo.{Role}
use homeplate.Bookings.Tests.{at, one_seat, seat}
use homeplate.Reviews.Service.{create_review}
use homeplate.Reviews.Creation.{
  pending_review, other_party, IsReviewable, ReviewRefused, reviewed, create_review_branches,
}

-- The booking is over.
abbrev eaten : Db
eaten = record one_seat { bookings = (11, record seat { status = BookingStatus.completed }) ∷ [] }

create_review_branches_example :
    ((b : Booking) × (l : Listing) × (role : Role) × IsReviewable 2 11 5 eaten b l role
      × (create_review (at 3000) 2 11 5 "Good" eaten ≡ (
        ok (eaten.next_id, pending_review (at 3000) 11 2 (other_party b l role) 5 "Good"),
        reviewed (at 3000) 11 2 (other_party b l role) 5 "Good" eaten,
      )))
    ⊎ ((x : Failure) × ReviewRefused 2 11 5 eaten x
        × (create_review (at 3000) 2 11 5 "Good" eaten ≡ (err x, eaten)))
create_review_branches_example = create_review_branches (at 3000) 2 11 5 "Good" eaten
