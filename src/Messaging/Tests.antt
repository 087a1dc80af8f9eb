-- ===== src/Messaging/Tests.antt =====
-- A thread at concrete inputs.
use homeplate.Base.{ℕ, ◌≡◌, ◌⊎◌, [], ◌∷◌}
use homeplate.Database.{Db, ok, err, Message, ModerationStatus, Failure}
use homeplate.Bookings.Tests.{at, one_seat}
use homeplate.Messaging.Thread.{new_message, post_message}
use homeplate.Messaging.Posting.{
  pending_message, IsThreadOpen, IsThreadShut, posted, post_message_branches,
}

post_message_branches_example :
    (IsThreadOpen 2 11 one_seat
      × (post_message (at 100) 2 11 "Hello" one_seat ≡ (
        ok (one_seat.next_id, pending_message (at 100) 11 2 "Hello"),
        posted (at 100) 2 11 "Hello" one_seat,
      )))
    ⊎ ((x : Failure) × IsThreadShut 2 11 one_seat x
        × (post_message (at 100) 2 11 "Hello" one_seat ≡ (err x, one_seat)))
post_message_branches_example = post_message_branches (at 100) 2 11 "Hello" one_seat

abbrev said : ModerationStatus → ℕ → Message
said status created = record (new_message (at created) 11 2 "Hello") { moderation_status = status }

-- Three messages, one of them rejected.
abbrev talk : Db
talk = record one_seat {
  messages =
      (33, said ModerationStatus.pending 9)
      ∷ (32, said ModerationStatus.rejected 8)
      ∷ (31, said ModerationStatus.approved 7)
      ∷ [];
}
