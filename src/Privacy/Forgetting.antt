-- ===== src/Privacy/Forgetting.antt =====
-- What the transaction of an erasure leaves of the user.
use homeplate.Base.{
  false, is_some, ◌≢◌, ==_refl, ℕ, ◌≡◌, refl, sym, ap, ◌∙◌, true, Option, none, some, arith, inl,
  inr, Bool-cases, if◌then◌else◌,
}
use homeplate.Table.{modify, update_all, delete_where, count, update_where}
use homeplate.Table.Laws.{count-update_all-none, count-update_all-le}
use homeplate.Table.Updates.{
  update_where-modify, lookup-update_all_inv, lookup-modify_inv, lookup-modify_cases, count-none,
  count-delete_where,
}
use homeplate.Database.{
  Db, Env, ok, User, Listing, HostProfile, DataRequest, RequestKind, Rewritten,
}
use homeplate.Privacy.Requests.{or_else, completed, complete_request, is_kind}
use homeplate.Privacy.Erasing.{
  emptied, erase_user_row, is_user, is_author, is_target, is_sender, is_raiser, without_author,
  without_target, without_sender, without_raiser, sever_author_references, is_hosted_by, scrubbed,
  scrub_listings, without_bio, clear_host_profile, is_token_of, delete_verification_tokens,
  is_export_of, wiped, wipe_export_details,
}
use homeplate.Privacy.Service.{erasure_evidence, erase_rows}
use homeplate.Privacy.Forgotten.{IsBlank, IsScrubbed, IsForgotten}

-- What severAuthorReferences counts.
abbrev pub references : ℕ → Db → Rewritten
references user db = record {
  reviews = count (is_author user) db.reviews;
  messages = count (is_sender user) db.messages;
  safety_alerts = count (is_raiser user) db.safety_alerts;
  review_targets = count (is_target user) (update_all (is_author user) without_author db.reviews);
}

-- The database when the transaction has run.
abbrev pub emptied_db : Env → (user request media : ℕ) → Db → Db
emptied_db env user request media db = record db {
  users = modify user (emptied user env.date_now) db.users;
  reviews =
      update_all (is_target user) without_target
        (update_all (is_author user) without_author db.reviews);
  messages = update_all (is_sender user) without_sender db.messages;
  safety_alerts = update_all (is_raiser user) without_raiser db.safety_alerts;
  listings = update_all (is_hosted_by user) scrubbed db.listings;
  host_profiles = modify user without_bio db.host_profiles;
  verification_tokens = delete_where (is_token_of user) db.verification_tokens;
  data_requests =
      modify request
        (completed env.date_now
          (erasure_evidence media (references user db) (count (is_hosted_by user) db.listings)))
        (update_all (is_export_of user) wiped db.data_requests);
}

pub erase_rows_ok :
    (env : Env) (user request media : ℕ) (db : Db)
    → (row : Option DataRequest) × (erase_rows env user request media db
        ≡ (ok row, emptied_db env user request media db))
unfolding erase_rows erase_user_row sever_author_references scrub_listings clear_host_profile
    delete_verification_tokens wipe_export_details complete_request
erase_rows_ok env user request media db =
    let finish : DataRequest → DataRequest =
      completed env.date_now
        (erasure_evidence media (references user db) (count (is_hosted_by user) db.listings)) in
    let rows = update_all (is_export_of user) wiped db.data_requests in
    (
      (update_where request (λ _. true) finish rows).0,
      λ i. (
        ok (update_where request (λ _. true) finish rows).0,
        record (emptied_db env user request media db) {
          users = update_where-modify user (emptied user env.date_now) db.users i;
          data_requests = update_where-modify request finish rows i;
        },
      ),
    )

is_kind_refl : (k : RequestKind) → is_kind k k ≡ true
is_kind_refl RequestKind.erasure = refl
is_kind_refl RequestKind.export = refl
is_kind_refl RequestKind.inactivity_notice = refl

emptied-IsBlank : (user at : ℕ) (u v : User) → u ≡ emptied user at v → IsBlank user u
emptied-IsBlank user at u v e = record {
  email = ap (λ (w : User). w.email) e;
  email_verified = ap (λ (w : User). w.email_verified) e;
  password_hash = ap (λ (w : User). w.password_hash) e;
  full_name = ap (λ (w : User). w.full_name) e;
  phone_enc = ap (λ (w : User). w.phone_enc) e;
  emergency_contact_name_enc = ap (λ (w : User). w.emergency_contact_name_enc) e;
  emergency_contact_phone_enc = ap (λ (w : User). w.emergency_contact_phone_enc) e;
  emergency_contact_email_enc = ap (λ (w : User). w.emergency_contact_email_enc) e;
  can_reserve_seat = ap (λ (w : User). w.can_reserve_seat) e;
  can_publish_listing = ap (λ (w : User). w.can_publish_listing) e;
  deleted = ap (λ (w : User). is_some w.deleted_at) e ∙ mark v.deleted_at;
  anonymized = ap (λ (w : User). is_some w.anonymized_at) e;
}
  where
    mark : (o : Option ℕ) → is_some (or_else o (some at)) ≡ true
    mark none = refl
    mark (some d) = refl

scrubbed-IsScrubbed : (l m : Listing) → m ≡ scrubbed l → IsScrubbed m
scrubbed-IsScrubbed l m e = record {
  title = ap (λ (n : Listing). n.title) e;
  description = ap (λ (n : Listing). n.description) e;
  ingredients = ap (λ (n : Listing). n.ingredients) e;
  allergens = ap (λ (n : Listing). n.allergens) e;
  cuisine = ap (λ (n : Listing). n.cuisine) e;
  address_line1 = ap (λ (n : Listing). n.address_line1) e;
  address_line2 = ap (λ (n : Listing). n.address_line2) e;
  city = ap (λ (n : Listing). n.city) e;
  region = ap (λ (n : Listing). n.region) e;
  postal_code = ap (λ (n : Listing). n.postal_code) e;
  lat = ap (λ (n : Listing). n.lat) e;
  lng = ap (λ (n : Listing). n.lng) e;
  coarse_lat = ap (λ (n : Listing). n.coarse_lat) e;
  coarse_lng = ap (λ (n : Listing). n.coarse_lng) e;
  area_label = ap (λ (n : Listing). n.area_label) e;
  status = ap (λ (n : Listing). n.status) e;
}

-- A listing of the user is scrubbed by an update of all of them.
hosted_scrubbed :
    (user : ℕ) (l m : Listing)
    → m ≡ (if is_hosted_by user l then scrubbed l else l)
    → m.host_id ≡ user
    → IsScrubbed m
hosted_scrubbed user l m e h = elim (Bool-cases (is_hosted_by user l)) [
  | inl mine ↦ scrubbed-IsScrubbed l m (ground (arith, e, mine))
  | inr other ↦ absurd (ground (arith, e, h, other))
]

is_user_not : (user : ℕ) (o : Option ℕ) → is_user user o ≡ false → o ≢ some user
is_user_not user o other same =
    let clash : is_user user (some user) ≡ false = ap (is_user user) (sym same) ∙ other in
    ground (arith, clash, ==_refl user)

copy_wiped :
    (user : ℕ) (r s : DataRequest)
    → (s ≡ (if is_export_of user r then wiped r else r))
    → s.user_id ≡ user
    → s.kind ≡ RequestKind.export
    → s.detail.export ≡ none
copy_wiped user r s e mine kind = elim (Bool-cases (is_export_of user r)) [
  | inl copy ↦ ground arith
  | inr other ↦ absurd (ground (arith, is_kind_refl RequestKind.export))
]

pub emptied_db-IsForgotten :
    (env : Env) (user request media : ℕ) (db : Db)
    → IsForgotten user (emptied_db env user request media db)
emptied_db-IsForgotten env user request media db =
    let now = env.date_now in
    let authored = update_all (is_author user) without_author db.reviews in
    let finish : DataRequest → DataRequest =
      completed now
        (erasure_evidence media (references user db) (count (is_hosted_by user) db.listings)) in
    let no_author =
      count-update_all-none (is_author user) (is_author user) without_author db.reviews (λ r h. h)
        (λ r. refl) in
    record {
      account = λ u e.
          let (v, found, is) = lookup-modify_inv user (emptied user now) db.users e in
          emptied-IsBlank user now u v is;
      authored = λ k r e.
          let none_ : count (is_author user) (update_all (is_target user) without_target authored)
              ≡ 0 =
            ground (
              arith,
              no_author,
              count-update_all-le (is_author user) (is_target user) without_target authored
                  (λ r. omega arith),
            ) in
          is_user_not user r.author_id (
            count-none (is_author user) k (update_all (is_target user) without_target authored)
              none_ e);
      targeted = λ k r e. is_user_not user r.target_user_id (
          count-none (is_target user) k (update_all (is_target user) without_target authored)
            (count-update_all-none (is_target user) (is_target user) without_target authored
              (λ r h. h) (λ r. refl))
            e);
      sent = λ k m e. is_user_not user m.sender_id (
          count-none (is_sender user) k (update_all (is_sender user) without_sender db.messages)
            (count-update_all-none (is_sender user) (is_sender user) without_sender db.messages
              (λ r h. h) (λ r. refl))
            e);
      raised = λ k a e. is_user_not user a.raised_by (
          count-none (is_raiser user) k
            (update_all (is_raiser user) without_raiser db.safety_alerts)
            (count-update_all-none (is_raiser user) (is_raiser user) without_raiser db.safety_alerts
              (λ r h. h) (λ r. refl))
            e);
      hosted = λ k l e h.
          let (before, found, is) =
            lookup-update_all_inv k (is_hosted_by user) scrubbed db.listings e in
          hosted_scrubbed user before l is h;
      profile = λ p e.
          let (before, found, is) = lookup-modify_inv user without_bio db.host_profiles e in
          ap (λ (q : HostProfile). q.bio) is;
      tokens = λ k t e mine.
          let other =
            count-none (is_token_of user) k (delete_where (is_token_of user) db.verification_tokens)
              (count-delete_where (is_token_of user) db.verification_tokens) e in
          ground (arith, other, mine);
      copies = λ k r e mine kind.
          let (s, found, is) =
            lookup-modify_cases k request finish
              (update_all (is_export_of user) wiped db.data_requests) e in
          let (before, _, was) =
            lookup-update_all_inv k (is_export_of user) wiped db.data_requests found in
          elim is [
            | inl same ↦ copy_wiped user before r (same ∙ was) mine kind
            | inr done ↦
                ap (λ (q : DataRequest). q.detail.export) done
                ∙ copy_wiped user before s was
                    (ap (λ (q : DataRequest). q.user_id) (sym done) ∙ mine)
                    (ap (λ (q : DataRequest). q.kind) (sym done) ∙ kind)
          ];
    }
