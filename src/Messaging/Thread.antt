-- ===== src/Messaging/Thread.antt =====
-- src/modules/messaging/service.js and repo.js: postMessage and listMessages.
use homeplate.Base.{
  ℕ, suc, zero, ◌-◌, ◌*◌, Bool, true, false, ◌&&◌, not, some, List, [], ◌∷◌, String, ltb, leb, ◌==◌,
  if◌then◌else◌, take,
}
use homeplate.Table.{Table, select, count}
use homeplate.Database.{
  Db, Env, Tx, ok, ◌>>=◌, ◌>>◌, pure, throw_if, query, with_transaction, Booking, BookingStatus,
  Listing, Message, ModerationStatus, ContentType, Failure,
}
use homeplate.Bookings.Repo.{Role}
use homeplate.Bookings.Participants.{participant_or_throw}
use homeplate.Moderation.Service.{submit_for_review}

abbrev pub is_cancelled : BookingStatus → Bool
is_cancelled BookingStatus.cancelled = true
is_cancelled _ = false

-- assertThreadOpen: the participants of a booking that is not cancelled.
abbrev pub assert_thread_open : ℕ → ℕ → Tx (Booking × Listing × Role)
assert_thread_open user booking = participant_or_throw user booking >>= λ found.
    throw_if (is_cancelled found.0.status) Failure.booking_cancelled >> pure found

abbrev pub new_message : Env → ℕ → ℕ → String → Message
new_message env booking sender body = record {
  booking_id = booking;
  sender_id = some sender;
  body = body;
  moderation_status = ModerationStatus.pending;
  created_at = env.now;
}

unfoldable pub insert_message : Env → ℕ → ℕ → String → Tx (ℕ × Message)
insert_message env booking sender body db =
    let m = new_message env booking sender body in
    (
      ok (db.next_id, m),
      record db { messages = (db.next_id, m) ∷ db.messages; next_id = suc db.next_id },
    )

unfoldable pub post_message : Env → ℕ → ℕ → String → Tx (ℕ × Message)
post_message env user booking body = with_transaction (
    assert_thread_open user booking >>= λ found. insert_message env booking user body >>= λ message.
    submit_for_review env ContentType.message message.0 >> pure message)

abbrev pub is_rejected : ModerationStatus → Bool
is_rejected ModerationStatus.rejected = true
is_rejected _ = false

-- WHERE booking_id = $1 AND moderation_status <> 'rejected'
abbrev pub is_visible : ℕ → Message → Bool
is_visible booking m = m.booking_id == booking && not (is_rejected m.moderation_status)

-- ORDER BY created_at, id
abbrev pub is_before : ℕ × Message → ℕ × Message → Bool
is_before (i, m) (j, n) =
    if m.created_at == n.created_at then leb i j else ltb m.created_at n.created_at

abbrev pub insert_ordered : ℕ × Message → Table Message → Table Message
insert_ordered row [] = row ∷ []
insert_ordered row (next ∷ t) =
    let rest = insert_ordered row t in if is_before row next then row ∷ next ∷ t else next ∷ rest

abbrev pub order_messages : Table Message → Table Message
order_messages [] = []
order_messages (row ∷ t) = insert_ordered row (order_messages t)

-- OFFSET
abbrev pub drop {ℓ} : {A : Type ℓ} → ℕ → List A → List A
drop zero xs = xs
drop (suc n) [] = []
drop (suc n) (x ∷ xs) = drop n xs

unfoldable pub list_visible_for_booking : ℕ → ℕ → ℕ → Db → Table Message
list_visible_for_booking booking page page_size db =
    take page_size
      (drop ((page - 1) * page_size) (order_messages (select (is_visible booking) db.messages)))

unfoldable pub count_visible_for_booking : ℕ → Db → ℕ
count_visible_for_booking booking db = count (is_visible booking) db.messages

pub record Page : Type 0 where
  pub items : Table Message
  pub page : ℕ
  pub page_size : ℕ
  pub total : ℕ

unfoldable pub list_messages : ℕ → ℕ → ℕ → ℕ → Tx Page
list_messages user booking page page_size = assert_thread_open user booking >>= λ _. query (λ db.
    record {
      items = list_visible_for_booking booking page page_size db;
      page = page;
      page_size = page_size;
      total = count_visible_for_booking booking db;
    })
