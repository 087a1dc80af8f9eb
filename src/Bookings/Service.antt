-- ===== src/Bookings/Service.antt =====
-- src/modules/bookings/service.js. The audit lines and the details of the errors are left out.
use homeplate.Base.{
  ℕ, Bool, true, false, not, Option, none, some, [], ◌∷◌, leb, ◌==◌, if◌then◌else◌, String,
}
use homeplate.Database.{
  Env, Listing, Booking, BookingStatus, ListingStatus, Degrees, Event, Tx, Failure, pure, throw,
  query, throw_if, some_or_throw, with_transaction, ◌>>=◌, ◌>>◌,
}
use homeplate.Bookings.Repo.{
  Role, is_active, is_approved, is_in_progress, count_pending_for_guest, select_listing,
  decrement_seat, insert_booking, select_booking_with_listing, mark_cancelled_before_start,
  restore_seat, apply_completion_confirmation,
}
use homeplate.Bookings.Lifecycle.{enqueue_booking_notifications, enqueue_promotion}

-- serializeListingRef: public fields only.
pub record ListingRef : Type 0 where
  pub id : ℕ
  pub host_id : ℕ
  pub title : String
  pub cuisine : Option String
  pub scheduled_start : ℕ
  pub duration_minutes : ℕ
  pub city : Option String
  pub area_label : Option String
  pub coarse_lat : Option Degrees
  pub coarse_lng : Option Degrees
  pub status : ListingStatus

abbrev pub serialize_listing_ref : ℕ → Listing → ListingRef
serialize_listing_ref id l = record {
  id = id;
  host_id = l.host_id;
  title = l.title;
  cuisine = l.cuisine;
  scheduled_start = l.scheduled_start;
  duration_minutes = l.duration_minutes;
  city = l.city;
  area_label = l.area_label;
  coarse_lat = l.coarse_lat;
  coarse_lng = l.coarse_lng;
  status = l.status;
}

pub record BookingView : Type 0 where
  pub id : ℕ
  pub listing_id : ℕ
  pub guest_id : ℕ
  pub status : BookingStatus
  pub guest_confirmed_completion : Bool
  pub host_confirmed_completion : Bool
  pub cancelled_at : Option ℕ
  pub completed_at : Option ℕ
  pub created_at : ℕ
  pub role : Option Role
  pub listing : ListingRef

abbrev pub serialize_booking : ℕ → Booking → Listing → Option Role → BookingView
serialize_booking id b l role = record {
  id = id;
  listing_id = b.listing_id;
  guest_id = b.guest_id;
  status = b.status;
  guest_confirmed_completion = b.guest_confirmed_completion;
  host_confirmed_completion = b.host_confirmed_completion;
  cancelled_at = b.cancelled_at;
  completed_at = b.completed_at;
  created_at = b.created_at;
  role = role;
  listing = serialize_listing_ref b.listing_id l;
}

-- Steps (2) and (3) of createBooking: the refusals before any write.
unfoldable pub check_bookable : Env → ℕ → ℕ → ℕ → Tx Listing
check_bookable env max_pending guest listing_id = do
  pending_count ← query (count_pending_for_guest guest)
  throw_if (leb max_pending pending_count) Failure.booking_limit
  target ← some_or_throw (← query (select_listing listing_id)) Failure.listing_not_found
  throw_if (target.host_id == guest) Failure.own_listing
  throw_if (not (is_approved target.moderation_status)) Failure.listing_not_found
  throw_if (not (is_active target.status)) Failure.listing_not_bookable
  throw_if (leb target.scheduled_start env.date_now) Failure.listing_started
  pure target

-- Steps (4) and (5): the seat, the booking and its jobs.
unfoldable pub take_seat : Env → ℕ → ℕ → Listing → Tx BookingView
take_seat env guest listing_id target = do
  decremented ← some_or_throw (← decrement_seat env listing_id) Failure.no_capacity
  created ← insert_booking env listing_id guest
  enqueue_booking_notifications env created.0 Event.created (guest ∷ decremented.host_id ∷ [])
  enqueue_promotion env created.0 decremented.scheduled_start
  pure (
      serialize_booking created.0 created.1
        (record target { seats_remaining = decremented.seats_remaining }) (some Role.guest))

abbrev pub create_booking_body : Env → ℕ → ℕ → ℕ → Tx BookingView
create_booking_body env max_pending guest listing_id =
    check_bookable env max_pending guest listing_id >>= take_seat env guest listing_id

unfoldable pub create_booking : Env → ℕ → ℕ → ℕ → Tx BookingView
create_booking env max_pending guest listing_id =
    with_transaction (create_booking_body env max_pending guest listing_id)

-- The caller's part in a booking.
abbrev pub role_of : ℕ → Booking → Listing → Option Role
role_of user b l =
    if b.guest_id == user
    then some Role.guest
    else if l.host_id == user
    then some Role.host
    else none

-- The refusals of cancelBooking when no row was updated.
abbrev pub classify_cancel : Env → Listing → Failure
classify_cancel env l =
    if leb l.scheduled_start env.date_now
    then Failure.cancel_too_late
    else Failure.booking_not_cancellable

abbrev pub cancel_event : Role → Event
cancel_event Role.guest = Event.cancelled_by_guest
cancel_event Role.host = Event.cancelled_by_host

abbrev pub seats_after : Option Listing → Listing → Listing
seats_after none l = l
seats_after (some restored) l = record l { seats_remaining = restored.seats_remaining }

-- The transition, the seat and the notifications of cancelBooking.
unfoldable pub cancel_pending : Env → ℕ → Booking → Listing → Role → Tx BookingView
cancel_pending env id b l role = do
  cancelled ← some_or_throw (← mark_cancelled_before_start env id) (classify_cancel env l)
  restored ← restore_seat b.listing_id
  enqueue_booking_notifications env id (cancel_event role) (b.guest_id ∷ l.host_id ∷ [])
  pure (serialize_booking id cancelled (seats_after restored l) (some role))

abbrev pub is_cancelled : BookingStatus → Bool
is_cancelled BookingStatus.cancelled = true
is_cancelled _ = false

unfoldable pub cancel_booking_body : Env → ℕ → ℕ → Tx BookingView
cancel_booking_body env user id = do
  (b, l) ← some_or_throw (← query (select_booking_with_listing id)) Failure.booking_not_found
  role ← some_or_throw (role_of user b l) Failure.not_participant
  (if is_cancelled b.status
      then pure (serialize_booking id b l (some role))
      else cancel_pending env id b l role)

unfoldable pub cancel_booking : Env → ℕ → ℕ → Tx BookingView
cancel_booking env user id = with_transaction (cancel_booking_body env user id)

pub record Completion : Type 0 where
  pub booking : BookingView
  pub awaiting_other_party : Bool

abbrev pub completion : ℕ → Booking → Listing → Role → Completion
completion id b l role = record {
  booking = serialize_booking id b l (some role);
  awaiting_other_party = is_in_progress b.status;
}

abbrev pub own_flag : Role → Booking → Bool
own_flag Role.guest b = b.guest_confirmed_completion
own_flag Role.host b = b.host_confirmed_completion

abbrev pub is_completed : BookingStatus → Bool
is_completed BookingStatus.completed = true
is_completed _ = false

-- The UPDATE of confirmCompletion, and the notifications if it completed the booking.
unfoldable pub apply_confirmation : Env → ℕ → Booking → Listing → Role → Tx Completion
apply_confirmation env id b l role = do
  updated ←
      some_or_throw (← apply_completion_confirmation env id role) Failure.booking_not_in_progress
  (if is_completed updated.status
      then enqueue_booking_notifications env id Event.completed (b.guest_id ∷ l.host_id ∷ [])
      else pure [])
  pure (completion id updated l role)

unfoldable pub confirm_completion_body : Env → ℕ → ℕ → Tx Completion
confirm_completion_body env user id = do
  (b, l) ← some_or_throw (← query (select_booking_with_listing id)) Failure.booking_not_found
  role ← some_or_throw (role_of user b l) Failure.not_participant
  (if is_completed b.status
      then pure (completion id b l role)
      else if not (is_in_progress b.status)
      then throw Failure.booking_not_in_progress
      else if own_flag role b
      then pure (completion id b l role)
      else apply_confirmation env id b l role)

unfoldable pub confirm_completion : Env → ℕ → ℕ → Tx Completion
confirm_completion env user id = with_transaction (confirm_completion_body env user id)

-- getBooking, with findParticipantBooking of repo.js.
unfoldable pub get_booking : ℕ → ℕ → Tx BookingView
get_booking user id = do
  (b, l) ← some_or_throw (← query (select_booking_with_listing id)) Failure.booking_not_found
  role ← some_or_throw (role_of user b l) Failure.not_participant
  pure (serialize_booking id b l (some role))
