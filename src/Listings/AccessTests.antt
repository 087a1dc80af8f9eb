-- ===== src/Listings/AccessTests.antt =====
-- The disclosure of a location at concrete inputs.
use homeplate.Base.{◌⊎◌, ◌≡◌, refl, true, some, none, [], ◌∷◌}
use homeplate.Database.{Auth, Db, DeliveryStatus, with_transaction}
use homeplate.Listings.Service.{
  cancel_listing, cancel_listing_body, close_listing, cancel_active_bookings, notify_cancelled,
}
use homeplate.Outbox.Enqueue.{enqueue}
use homeplate.Listings.Access.{AccessEntry, has_alert, can_view_precise_location}
use homeplate.Listings.Disclosure.{cancel_listing_hides}
use homeplate.Listings.Tests.{offer, taken, at}

abbrev moderator : Auth
moderator = record { user_id = 50; is_moderator = true }

abbrev entry : AccessEntry
entry = record { actor_user_id = 50; subject_user_id = 3; resource = 1 }

-- An alert on the booking 4.
abbrev alerted : Db
alerted = record taken {
  safety_alerts =
      (
        8,
        record {
          booking_id = 4;
          raised_by = some 9;
          delivery_status = DeliveryStatus.pending;
          delivered_at = none;
          created_at = 9;
        },
      )
      ∷ [];
}

still_seen :
    can_view_precise_location (some moderator) 1 (cancel_listing (at 20) 3 1 alerted).1 []
    ≡ (true, entry ∷ [])
unfolding can_view_precise_location cancel_listing cancel_listing_body with_transaction
    close_listing cancel_active_bookings notify_cancelled enqueue
still_seen = refl

cancel_listing_hides_example :
    (moderator.user_id ≡ 3)
    ⊎ ((moderator.is_moderator ≡ true)
        × (has_alert 1 (cancel_listing (at 20) 3 1 alerted).1.bookings alerted.safety_alerts
            ≡ true))
cancel_listing_hides_example =
    cancel_listing_hides (at 20) 3 1 alerted (record offer { seats_remaining = 7 }) moderator []
      (entry ∷ []) refl refl refl still_seen
