-- ===== src/Privacy/Erasing.antt =====
-- src/modules/privacy/repo.js: the statements of an erasure, each on all rows of the user.
use homeplate.Base.{ℕ, Bool, true, false, ◌&&◌, Option, none, some, [], ◌==◌, String}
use homeplate.Table.{modify, update_all, delete_where, count, update_where}
use homeplate.Database.{
  Tx, ok, User, Email, PasswordHash, Review, Message, SafetyAlert, Listing, ListingStatus,
  HostProfile, VerificationToken, DataRequest, RequestKind, Rewritten,
}
use homeplate.Privacy.Requests.{or_else, no_detail, is_kind}

-- The row that is left of a user.
abbrev pub emptied : ℕ → ℕ → User → User
emptied id at u = record u {
  email = Email.erased id;
  email_verified = false;
  password_hash = PasswordHash.erased;
  full_name = none;
  phone_enc = none;
  emergency_contact_name_enc = none;
  emergency_contact_phone_enc = none;
  emergency_contact_email_enc = none;
  can_reserve_seat = false;
  can_publish_listing = false;
  deleted_at = or_else u.deleted_at (some at);
  anonymized_at = some at;
}

unfoldable pub erase_user_row : ℕ → ℕ → Tx (Option User)
erase_user_row id at db =
    let (row, rows) = update_where id (λ _. true) (emptied id at) db.users in
    (ok row, record db { users = rows })

-- column = $1, of a column that may be NULL
abbrev pub is_user : ℕ → Option ℕ → Bool
is_user user none = false
is_user user (some id) = id == user

abbrev pub is_author : ℕ → Review → Bool
is_author user r = is_user user r.author_id

abbrev pub is_target : ℕ → Review → Bool
is_target user r = is_user user r.target_user_id

abbrev pub is_sender : ℕ → Message → Bool
is_sender user m = is_user user m.sender_id

abbrev pub is_raiser : ℕ → SafetyAlert → Bool
is_raiser user a = is_user user a.raised_by

abbrev pub without_author : Review → Review
without_author r = record r { author_id = none }

abbrev pub without_target : Review → Review
without_target r = record r { target_user_id = none }

abbrev pub removed_body : String
removed_body = "[removed: sender account deleted (NFR-12)]"

abbrev pub without_sender : Message → Message
without_sender m = record m { sender_id = none; body = removed_body }

abbrev pub without_raiser : SafetyAlert → SafetyAlert
without_raiser a = record a { raised_by = none }

unfoldable pub sever_author_references : ℕ → Tx Rewritten
sever_author_references user db =
    let authored = update_all (is_author user) without_author db.reviews in
    (
      ok (record {
        reviews = count (is_author user) db.reviews;
        messages = count (is_sender user) db.messages;
        safety_alerts = count (is_raiser user) db.safety_alerts;
        review_targets = count (is_target user) authored;
      }),
      record db {
        reviews = update_all (is_target user) without_target authored;
        messages = update_all (is_sender user) without_sender db.messages;
        safety_alerts = update_all (is_raiser user) without_raiser db.safety_alerts;
      },
    )

abbrev pub is_hosted_by : ℕ → Listing → Bool
is_hosted_by user l = l.host_id == user

abbrev pub scrubbed : Listing → Listing
scrubbed l = record l {
  title = "Listing removed";
  description = "Content removed: the host account was deleted (NFR-12).";
  ingredients = [];
  allergens = [];
  cuisine = none;
  address_line1 = none;
  address_line2 = none;
  city = none;
  region = none;
  postal_code = none;
  lat = none;
  lng = none;
  coarse_lat = none;
  coarse_lng = none;
  area_label = none;
  status = ListingStatus.cancelled;
}

unfoldable pub scrub_listings : ℕ → Tx ℕ
scrub_listings user db = (
  ok (count (is_hosted_by user) db.listings),
  record db { listings = update_all (is_hosted_by user) scrubbed db.listings },
)

abbrev pub without_bio : HostProfile → HostProfile
without_bio p = record p { bio = none }

-- The count of updated rows is left out here and below: the service drops it.
unfoldable pub clear_host_profile : ℕ → Tx (Unit {0})
clear_host_profile user db =
    (ok tt, record db { host_profiles = modify user without_bio db.host_profiles })

abbrev pub is_token_of : ℕ → VerificationToken → Bool
is_token_of user t = t.user_id == user

unfoldable pub delete_verification_tokens : ℕ → Tx (Unit {0})
delete_verification_tokens user db = (
  ok tt,
  record db { verification_tokens = delete_where (is_token_of user) db.verification_tokens },
)

abbrev pub is_export_of : ℕ → DataRequest → Bool
is_export_of user r = r.user_id == user && is_kind RequestKind.export r.kind

abbrev pub wiped : DataRequest → DataRequest
wiped r = record r { detail = no_detail }

unfoldable pub wipe_export_details : ℕ → Tx (Unit {0})
wipe_export_details user db =
    (ok tt, record db { data_requests = update_all (is_export_of user) wiped db.data_requests })
