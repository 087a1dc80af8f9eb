-- ===== src/Privacy/Tests.antt =====
-- The deletion and the erasure of an account at concrete inputs.
use homeplate.Base.{
  ℕ, ◌≡◌, ◌⊎◌, ◌&&◌, not, ◌-◌, List, is_some, refl, true, false, none, some, [], ◌∷◌, arith,
}
use homeplate.Table.{Table, lookup}
use homeplate.Database.{
  empty_db, Db, Env, ok, err, with_transaction, Review, Message, Failure, ModerationStatus,
  DataRequest, RequestKind, RequestStatus, RequestCopy, MediaObject, MediaKind, SessionRecord,
  UserRole, ErasureReason, Job, DedupeKey, Export,
}
use homeplate.Outbox.Enqueue.{enqueue, DedupeKey-discrete, Event-discrete}
use homeplate.Outbox.Keys.{has_key, Extends}
use homeplate.Auth.Sessions.{is_session_of, destroy_session, destroy_sessions_for_user}
use homeplate.Auth.Revocation.{Ended, sessions_after}
use homeplate.Auth.SessionTests.{keys, keys-IsComplete}
use homeplate.Bookings.Tests.{at, supper, seat}
use homeplate.Eligibility.Tests.{cook, profile}
use homeplate.Privacy.Requests.{
  no_detail, find_request_by_id, get_user, mark_request_processing, complete_request,
  merge_request_detail, find_open_request, create_request, mark_deleted, is_gone, serialize_request,
}
use homeplate.Privacy.Erasing.{
  erase_user_row, sever_author_references, scrub_listings, clear_host_profile,
  delete_verification_tokens, wipe_export_details,
}
use homeplate.Privacy.Copies.{Opener, collect_export, copied_account}
use homeplate.Privacy.Service.{
  Deps, Windows, Phase, process_erasure, erase, erase_rows, erase_inactive, send_and_schedule,
  request_deletion, mark_and_schedule, open_erasure_request,
}
use homeplate.Privacy.Exporting.{
  Collected, begin_export, finish_export, get_export_for_user, run_inactivity_sweep,
  find_inactive_users, is_flagged,
}
use homeplate.Privacy.Exports.{IsOwnExport, get_export_for_user_branches}
use homeplate.Privacy.Forgotten.{IsForgotten}
use homeplate.Privacy.Erasure.{Erases, processing}
use homeplate.Privacy.Outcome.{IsMediaOnly, process_erasure_forgets, process_erasure_once}
use homeplate.Privacy.Others.{IsSpared, process_erasure_spares}
use homeplate.Privacy.Notice.{IsNoticeOnly, FinalJob}
use homeplate.Privacy.Inactivity.{Noticed, inactivity_notice_first, second_delivery_erases}
use homeplate.Privacy.Deletion.{Opens}
use homeplate.Privacy.Scheduling.{
  DeletionJob, scheduled, closed, request_deletion_branches, request_deletion_repeat,
}
use homeplate.Privacy.Sweep.{run_inactivity_sweep_once}
use homeplate.Privacy.Survival.{export_survives_erasure}

abbrev pub asked : DataRequest
asked = record {
  user_id = 1;
  kind = RequestKind.erasure;
  status = RequestStatus.pending;
  due_at = 90;
  completed_at = none;
  detail = record no_detail { requested_at = some 10 };
  created_at = 10;
}

abbrev copy_asked : DataRequest
copy_asked = record asked { kind = RequestKind.export; detail = no_detail }

abbrev flagged : DataRequest
flagged = record asked {
  kind = RequestKind.inactivity_notice;
  detail = record no_detail { flagged_at = some 10 };
}

abbrev pub photo : MediaObject
photo = record {
  owner_user_id = 1;
  entity_type = MediaKind.listing;
  entity_id = some 10;
  storage_key = "m/1";
  content_type = none;
  size_bytes = none;
  deleted_at = none;
  created_at = 7;
}

abbrev praise : Review
praise = record {
  booking_id = 11;
  author_id = some 2;
  target_user_id = some 1;
  rating = 5;
  body = some "Good";
  moderation_status = ModerationStatus.approved;
  created_at = 20;
}

abbrev hello : Message
hello = record {
  booking_id = 11;
  sender_id = some 1;
  body = "Come at six";
  moderation_status = ModerationStatus.approved;
  created_at = 20;
}

-- Host 1 with a listing, a guest, and one of everything; the requests 30 to 32 are host 1's.
abbrev pub home : Db
home = record empty_db {
  listings = (10, supper) ∷ [];
  bookings = (11, seat) ∷ [];
  reviews = (14, praise) ∷ [];
  messages = (15, hello) ∷ [];
  users = (1, cook) ∷ (2, cook) ∷ [];
  host_profiles = (1, profile) ∷ [];
  verification_tokens = (16, record { user_id = 1; expires_at = 50; consumed_at = none }) ∷ [];
  data_requests = (30, asked) ∷ (31, copy_asked) ∷ (32, flagged) ∷ [];
  media_objects = (17, photo) ∷ [];
  sessions =
      (18, record { value = SessionRecord.session 1 (UserRole.user ∷ []) 5; expires_at = 5000 })
      ∷ [];
  next_id = 40;
}

abbrev pub days : Windows
days = record { erasure_days = 30; inactivity_months = 24 }

-- The media service finds and deletes all, and a mail always goes out.
abbrev working : Deps
working = record {
  delete_media = λ user db. (ok 1, record db { media_objects = [] });
  send_notice = λ user request db. (ok (some (record { sent = true; attempt_id = 77 })), db);
}

working-IsMediaOnly : IsMediaOnly working
working-IsMediaOnly user db = refl

working-IsNoticeOnly : IsNoticeOnly working
working-IsNoticeOnly user request db = refl

abbrev run : ErasureReason → ℕ → Env → Db → ℕ → Db
run reason request env db user = (process_erasure env days working keys user request reason db).1

abbrev emptied_home : Db
emptied_home = run ErasureReason.deletion 30 (at 100) home 1

erased :
    process_erasure (at 100) days working keys 1 30 ErasureReason.deletion home
    ≡ (ok (Phase.erased 1), emptied_home)
unfolding process_erasure find_request_by_id get_user erase mark_request_processing with_transaction
    erase_rows erase_user_row sever_author_references scrub_listings clear_host_profile
    delete_verification_tokens wipe_export_details complete_request destroy_sessions_for_user
    destroy_session
erased = refl

process_erasure_forgets_example :
    Erases ErasureReason.deletion 1 30 home
    × IsForgotten 1 emptied_home
    × ((k : ℕ) → is_session_of (at 100) 1 k emptied_home.sessions ≡ false)
process_erasure_forgets_example =
    process_erasure_forgets (at 100) days working keys 1 30 ErasureReason.deletion home emptied_home
      1 keys-IsComplete erased

process_erasure_once_example :
    process_erasure (at 200) days working keys 1 30 ErasureReason.inactivity emptied_home
    ≡ (ok (Phase.already_done RequestStatus.completed), emptied_home)
process_erasure_once_example =
    process_erasure_once (at 100) days working keys 1 30 ErasureReason.deletion home emptied_home 1
      (at 200) days working keys 1 ErasureReason.inactivity working-IsMediaOnly erased

process_erasure_spares_example : IsSpared 1 home emptied_home
process_erasure_spares_example =
    process_erasure_spares (at 100) days working keys 1 30 ErasureReason.deletion home emptied_home
      1 working-IsMediaOnly erased

abbrev noticed : Db
noticed = run ErasureReason.inactivity 32 (at 100) home 1

notice_went :
    process_erasure (at 100) days working keys 1 32 ErasureReason.inactivity home
    ≡ (ok (Phase.notice_sent 2592000100), noticed)
unfolding process_erasure find_request_by_id get_user erase_inactive send_and_schedule
    merge_request_detail with_transaction enqueue DedupeKey-discrete Event-discrete
    native.Mathlib.Decide.ℕ_discrete
notice_went = refl

inactivity_notice_first_example :
    (Phase.notice_sent 2592000100 ≡ Phase.notice_sent 2592000100)
    × (noticed.users ≡ home.users)
    × Extends (FinalJob (at 100) days 1 32) home.jobs noticed.jobs
    × ((s : DataRequest) × Noticed (at 100) days working keys 1 32 s noticed
        × (s.status ≡ RequestStatus.pending)
        × (s.created_at ≡ 10))
inactivity_notice_first_example =
    inactivity_notice_first (at 100) days working keys 1 32 flagged cook home noticed
      (Phase.notice_sent 2592000100) working-IsNoticeOnly refl refl refl refl refl notice_went

-- One millisecond after the notice.
second_delivery_erases_example :
    (process_erasure (at 101) days working keys 1 32 ErasureReason.inactivity noticed).0
    ≡ ok (Phase.erased 1)
second_delivery_erases_example =
    second_delivery_erases (at 100) days working keys 1 32 (at 101) 2592000100 1 flagged cook home
      noticed (record (processing (at 101) working keys 1 32 noticed) { media_objects = [] })
      working-IsNoticeOnly refl refl refl (omega arith) notice_went refl

request_deletion_branches_example :
    ((row : ℕ × DataRequest) × (requests : Table DataRequest) × (jobs : Table Job) × (next : ℕ)
      × (request_deletion (at 100) days keys 1 (some 18) home ≡ (
        ok (serialize_request row, row.1.due_at),
        closed (at 100) days 1 keys (some 18) (scheduled (at 100) days 1 home requests jobs next),
      ))
      × (is_gone (lookup 1 home.users) ≡ false)
      × Opens (at 100) days 1 home row requests
      × (has_key (DedupeKey.erasure_deletion 1) jobs ≡ true)
      × Extends (DeletionJob (at 100) days 1 row) home.jobs jobs
      × Ended (at 100) 1 (some 18) home.sessions (
          sessions_after
            (at 100)
            keys
            1
            (some 18)
            (scheduled (at 100) days 1 home requests jobs next)))
    ⊎ ((request_deletion (at 100) days keys 1 (some 18) home ≡ (err Failure.not_found, home))
        × (is_gone (lookup 1 home.users) ≡ true))
request_deletion_branches_example =
    request_deletion_branches (at 100) days 1 keys (some 18) home (refl, (refl, (refl, tt)))
      keys-IsComplete

abbrev answer : RequestCopy × ℕ
answer = (
  record {
    id = 30;
    kind = RequestKind.erasure;
    status = RequestStatus.pending;
    due_at = 90;
    completed_at = none;
    created_at = 10;
  },
  90,
)

abbrev marked_home : Db
marked_home = (request_deletion (at 100) days keys 1 (some 18) home).1

was_asked : request_deletion (at 100) days keys 1 (some 18) home ≡ (ok answer, marked_home)
unfolding request_deletion mark_and_schedule get_user mark_deleted open_erasure_request
    find_open_request create_request serialize_request enqueue with_transaction
    destroy_sessions_for_user destroy_session DedupeKey-discrete Event-discrete
    native.Mathlib.Decide.ℕ_discrete
was_asked = refl

request_deletion_repeat_example :
    (request_deletion (at 300) days keys 1 none marked_home ≡ (
      ok answer,
      record marked_home { sessions = sessions_after (at 300) keys 1 none marked_home },
    ))
    × Ended (at 300) 1 none marked_home.sessions (sessions_after (at 300) keys 1 none marked_home)
request_deletion_repeat_example =
    request_deletion_repeat (at 100) (at 300) days days keys keys 1 (some 18) none answer home
      marked_home (refl, (refl, (refl, tt))) keys-IsComplete keys-IsComplete was_asked

get_export_for_user_branches_example :
    ((r : DataRequest) × (lookup 31 home.data_requests ≡ some r)
      × IsOwnExport 2 r
      × (get_export_for_user 2 31 home ≡ (ok (serialize_request (31, r), r.detail.export), home)))
    ⊎ ((get_export_for_user 2 31 home ≡ (err Failure.not_found, home))
        × ¬ ((r : DataRequest) × (lookup 31 home.data_requests ≡ some r) × IsOwnExport 2 r))
get_export_for_user_branches_example = get_export_for_user_branches 2 31 home

-- Nothing can be decrypted.
abbrev shut : Opener
shut value = none

abbrev reading : Db
reading = (begin_export shut 1 31 home).1

abbrev collected : Export
collected = copied_account shut 1 cook reading

read : begin_export shut 1 31 home ≡ (ok (Collected.collected (some collected)), reading)
unfolding begin_export find_request_by_id get_user mark_request_processing collect_export
read = refl

abbrev erased_meanwhile : Db
erased_meanwhile = run ErasureReason.deletion 30 (at 100) reading 1

erased_between :
    process_erasure (at 100) days working keys 1 30 ErasureReason.deletion reading
    ≡ (ok (Phase.erased 1), erased_meanwhile)
unfolding begin_export process_erasure find_request_by_id get_user erase mark_request_processing
    with_transaction erase_rows erase_user_row sever_author_references scrub_listings
    clear_host_profile delete_verification_tokens wipe_export_details complete_request
    destroy_sessions_for_user destroy_session
erased_between = refl

export_survives_erasure_example :
    let after =
      (finish_export (at 101) 31 (Collected.collected (some collected)) erased_meanwhile).1 in
    ((s : DataRequest) × (lookup 31 after.data_requests ≡ some s)
      × (s.detail.export ≡ some collected))
    × ¬ IsForgotten 1 after
export_survives_erasure_example =
    export_survives_erasure (at 100) (at 101) days shut working keys 1 31 30 ErasureReason.deletion
      copy_asked home reading erased_meanwhile collected 1 working-IsMediaOnly refl (refl, refl)
      refl read erased_between

-- User 2 has been away for long; user 1 has an open notice.
run_inactivity_sweep_once_example :
    (flagged : List (ℕ × ℕ)) × (db' : Db) × (run_inactivity_sweep
        (at 100)
        days
        (λ now months. now - months)
        5
        home
      ≡ (ok flagged, db'))
    × (db'.users ≡ home.users)
    × ((user : ℕ)
        → is_some (lookup user flagged) ≡ is_some (lookup user (find_inactive_users 76 5 home)))
    × ((user : ℕ) → (is_some (lookup user flagged) && not (is_flagged user db')) ≡ false)
    × ((user cutoff more : ℕ)
        → (is_some (lookup user flagged)
            && is_some (lookup user (find_inactive_users cutoff more db')))
          ≡ false)
run_inactivity_sweep_once_example =
    run_inactivity_sweep_once (at 100) days (λ now months. now - months) 5 home
