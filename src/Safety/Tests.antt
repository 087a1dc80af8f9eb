-- ===== src/Safety/Tests.antt =====
-- Alerts at concrete inputs.
use homeplate.Base.{◌≡◌, refl, arith, true, none, some, [], ◌∷◌, is_some}
use homeplate.Table.{lookup}
use homeplate.Database.{Auth, Db, ok, err, SafetyAlert, DeliveryStatus, ContentType, Failure}
use homeplate.Bookings.Tests.{at, one_seat}
use homeplate.Moderation.Repo.{find_open, insert_queue_item}
use homeplate.Safety.Repo.{load_for_delivery, file_unified_queue_entry, mark_delivered}
use homeplate.Safety.Delivery.{Contact, Channels, Delivered, handle}
use homeplate.Safety.Handling.{IsForeign, IsMarked, handle_marks}

abbrev moderator : Auth
moderator = record { user_id = 9; is_moderator = true }

abbrev pub alarm : SafetyAlert
alarm = record {
  booking_id = 11;
  raised_by = some 2;
  delivery_status = DeliveryStatus.pending;
  delivered_at = none;
  created_at = 90;
}

abbrev pub alarmed : Db
alarmed = record one_seat { safety_alerts = (40, alarm) ∷ []; next_id = 50 }

-- The mail of the contact is sent, or is not.
abbrev mails : Channels
mails = record {
  moderators = 9 ∷ [];
  notify = λ m. ok true;
  contact = Contact.address;
  deliver = ok true;
  log_no_channel = ok tt;
  max_attempts = 8;
}

abbrev pub outage : Channels
outage = record mails { notify = λ m. err Failure.provider_error }

pub outage-IsForeign : IsForeign outage
outage-IsForeign = record {
  of_notice = λ m e. absurd (ground arith);
  of_delivery = λ e. absurd (ground arith);
  of_log = λ e. absurd (ground arith);
}

mails-IsForeign : IsForeign mails
mails-IsForeign = record {
  of_notice = λ m e. absurd (ground arith);
  of_delivery = λ e. absurd (ground arith);
  of_log = λ e. absurd (ground arith);
}

alarm_loaded : load_for_delivery 40 alarmed ≡ some alarm
unfolding load_for_delivery
alarm_loaded = refl

handle_marks_example :
    let (r, after) = handle outage (at 100) 40 1 alarmed in
    ((b : SafetyAlert) × (lookup 40 after.safety_alerts ≡ some b)
      × IsMarked outage outage-IsForeign 1 r b.delivery_status)
    × (is_some (find_open ContentType.safety_alert 40 after.queue) ≡ true)
handle_marks_example =
    handle_marks outage outage-IsForeign (at 100) 40 1 alarmed alarm alarm_loaded refl

abbrev told : Db
told = (handle mails (at 100) 40 1 alarmed).1

mails_deliver : handle mails (at 100) 40 1 alarmed ≡ (ok Delivered.delivered, told)
unfolding handle load_for_delivery file_unified_queue_entry insert_queue_item mark_delivered
mails_deliver = refl
