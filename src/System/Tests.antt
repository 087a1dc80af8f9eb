-- ===== src/System/Tests.antt =====
-- A history of calls.
use homeplate.Base.{◌+◌, ◌≤◌, ◌≡◌, refl, some, arith}
use homeplate.Table.{lookup, count}
use homeplate.Database.{Db, ContentType, with_transaction}
use homeplate.Outbox.Enqueue.{enqueue, DedupeKey-discrete, Event-discrete}
use homeplate.Bookings.Repo.{
  select_listing, select_booking_with_listing, decrement_seat, insert_booking,
  mark_cancelled_before_start, restore_seat, count_pending_for_guest,
}
use homeplate.Bookings.Lifecycle.{enqueue_booking_notifications, enqueue_promotion}
use homeplate.Bookings.Service.{
  create_booking, check_bookable, take_seat, cancel_booking, cancel_booking_body, cancel_pending,
}
use homeplate.Bookings.Seats.{seats_held}
use homeplate.Bookings.Tests.{at, supper, one_seat, one_seat-IsSound}
use homeplate.Moderation.Repo.{is_open_for}
use homeplate.Moderation.Service.{Verdict, doubtful, finish_scan}
use homeplate.Moderation.Tests.{calm}
use homeplate.Safety.Repo.{file_unified_queue_entry}
use homeplate.System.Queue.{Commit, Leads, one_open_item}
use homeplate.System.{Step, Reach, no_overbooking}

-- Guest 5 takes the last seat, and guest 2 gives one back.
abbrev end : Db
end = (cancel_booking (at 100) 2 11 (create_booking (at 100) 3 5 10 one_seat).1).1

history : Reach one_seat end
history =
    Reach.next (Reach.next Reach.begin (Step.reserve (at 100) 3 5 10 one_seat))
      (Step.cancel (at 100) 2 11 (create_booking (at 100) 3 5 10 one_seat).1)

end_listing : lookup 10 end.listings ≡ some supper
unfolding create_booking check_bookable take_seat with_transaction count_pending_for_guest
    select_listing decrement_seat insert_booking enqueue_booking_notifications enqueue_promotion
    enqueue cancel_booking cancel_booking_body cancel_pending select_booking_with_listing
    mark_cancelled_before_start restore_seat DedupeKey-discrete Event-discrete
    native.Mathlib.Decide.ℕ_discrete
end_listing = refl

no_overbooking_example : supper.seats_remaining + seats_held 10 end ≤ supper.seat_capacity
no_overbooking_example = no_overbooking one_seat end 10 supper one_seat-IsSound history end_listing

-- A scan files an item, a second one of the same content does not, and an alert comes between.
abbrev wary_verdict : Verdict
wary_verdict = Verdict.escalated (doubtful calm)

abbrev filed_once : Db
filed_once = (finish_scan (at 100) ContentType.listing 10 wary_verdict one_seat).1

abbrev filed_alert : Db
filed_alert = (file_unified_queue_entry (at 110) 40 filed_once).1

abbrev filed_twice : Db
filed_twice = (finish_scan (at 120) ContentType.listing 10 wary_verdict filed_alert).1

filings : Leads one_seat filed_twice
filings =
    Leads.next
      (Leads.next
        (Leads.next Leads.begin (Commit.scan (at 100) ContentType.listing 10 wary_verdict one_seat))
        (Commit.file (at 110) 40 filed_once))
      (Commit.scan (at 120) ContentType.listing 10 wary_verdict filed_alert)

one_open_item_example : count (is_open_for ContentType.listing 10) filed_twice.queue ≤ 1
one_open_item_example = one_open_item ContentType.listing 10 (λ kind k. omega arith) filings
