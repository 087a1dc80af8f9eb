-- ===== src/Database/Failures.antt =====
-- What the modelled code throws, by the error's code (src/lib/errors.js).
use homeplate.Base.{ℕ}

pub data Failure : Type 0 where
  booking_limit own_listing listing_not_bookable listing_started no_capacity : Failure
  cancel_too_late booking_not_cancellable booking_not_in_progress : Failure
  listing_not_found booking_not_found not_found : Failure
  not_participant forbidden not_moderator : Failure
  mehko_daily_listing_limit listing_cancelled seat_capacity_below_booked : Failure
  mehko_daily_meal_limit mehko_weekly_meal_limit validation_failed : Failure
  queue_item_not_found queue_item_resolved : Failure
  booking_cancelled booking_not_completed review_exists : Failure
  -- what the delivery of a safety alert throws
  moderator_notice_failed contact_unreadable emergency_delivery_failed : Failure
  media_key_exists media_owner_not_found media_erasure_incomplete inactivity_notice_undelivered :
      Failure
  booking_promote_unsecured no_handler type_error provider_error : Failure
  -- SQLSTATE 23514 (a CHECK), and 23505 on listings_host_local_date_key and on
  -- reviews_one_per_booking_author
  check_violation unique_violation second_review : Failure

-- The HTTP status of the error class that each is thrown as; 500 for what is no AppError.
unfoldable pub http_status : Failure → ℕ
http_status booking_limit = 409
http_status own_listing = 409
http_status listing_not_bookable = 409
http_status listing_started = 409
http_status no_capacity = 409
http_status cancel_too_late = 409
http_status booking_not_cancellable = 409
http_status booking_not_in_progress = 409
http_status mehko_daily_listing_limit = 409
http_status listing_cancelled = 409
http_status seat_capacity_below_booked = 409
http_status queue_item_resolved = 409
http_status booking_cancelled = 409
http_status booking_not_completed = 409
http_status review_exists = 409
http_status listing_not_found = 404
http_status booking_not_found = 404
http_status not_found = 404
http_status queue_item_not_found = 404
http_status not_participant = 403
http_status forbidden = 403
http_status not_moderator = 403
http_status mehko_daily_meal_limit = 422
http_status mehko_weekly_meal_limit = 422
http_status validation_failed = 422
http_status media_key_exists = 409
http_status media_owner_not_found = 404
http_status provider_error = 503
http_status media_erasure_incomplete = 503
http_status inactivity_notice_undelivered = 503
http_status _ = 500
