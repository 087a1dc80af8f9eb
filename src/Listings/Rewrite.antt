-- ===== src/Listings/Rewrite.antt =====
-- The write of updateListing: the patched row, and the jobs that follow it.
use mathlib.Core.Path.{subst}
use homeplate.Base.{
  inl, ℕ, suc, ◌≤◌, ◌≡◌, refl, Bool, true, false, none, List, [], ◌∷◌, arith, is_some,
}
use homeplate.Table.{Table, modify}
use homeplate.Database.{
  Db, Env, Listing, Booking, Job, JobType, Payload, ContentType, DedupeKey, ok, Tx, >>=_inv, pure,
  ◌>>◌,
}
use homeplate.Outbox.Enqueue.{enqueue, new_job}
use homeplate.Outbox.Keys.{Extends, Extends-KeepsKeys, Defers, has_key, Defers-pure, Defers-bind}
use homeplate.Bookings.Lifecycle.{enqueue_promotion}
use homeplate.Bookings.Deferred.{BookingJob, promotion-Defers}
use homeplate.Listings.Update.{
  ColumnPatch, is_material, is_address_change, apply_patch, write_listing, pending_booking_ids,
  enqueue_promotions, enqueue_if, reschedule, write_patch,
}

-- A promotion at the new start for each of the bookings.
abbrev pub PromotedAt : ℕ → List ℕ → Table Job → Type 0
PromotedAt at [] jobs = Unit {0}
PromotedAt at (id ∷ ids) jobs =
    (has_key (DedupeKey.promote id at) jobs ≡ true) × PromotedAt at ids jobs

promotions-Defers :
    (env : Env) (at : ℕ) (ids : List ℕ) (db : Db)
    → Defers (BookingJob env) (enqueue_promotions env at ids) db (λ _ jobs. PromotedAt at ids jobs)
unfolding enqueue_promotions
promotions-Defers env at [] db = Defers-pure (λ _ jobs. Unit {0}) tt db tt
promotions-Defers env at (id ∷ ids) db =
    Defers-bind (enqueue_promotion env id at) (λ _. enqueue_promotions env at ids) db
      (λ _ t. has_key (DedupeKey.promote id at) t ≡ true) (λ _ t. PromotedAt at (id ∷ ids) t)
      (promotion-Defers env id at db)
      λ e t n mine.
        let (u, t', n', eq, le, keeps, due) =
          promotions-Defers env at ids (record db { jobs = t; next_id = n }) in
        (u, t', n', eq, le, keeps, (Extends-KeepsKeys keeps (DedupeKey.promote id at) mine, due))

-- A moved start leaves a promotion at the new instant for every pending booking.
abbrev pub Rescheduled : Bool → ℕ → Listing → Table Booking → Table Job → Type 0
Rescheduled false id row bookings jobs = Unit {0}
Rescheduled true id row bookings jobs =
    PromotedAt row.scheduled_start (pending_booking_ids id bookings) jobs

reschedule-Defers :
    (env : Env) (moved : Bool) (id : ℕ) (row : Listing) (db : Db)
    → Defers
        (BookingJob env)
        (reschedule env moved id row)
        db
        (λ _ t. Rescheduled moved id row db.bookings t)
unfolding reschedule
reschedule-Defers env false id row db = Defers-pure (λ _ t. Unit {0}) tt db tt
reschedule-Defers env true id row db =
    promotions-Defers env row.scheduled_start (pending_booking_ids id db.bookings) db

unkeyed-Defers :
    (env : Env) (flag : Bool) (type : JobType) (payload : Payload) (db : Db)
    → Defers (BookingJob env) (enqueue_if flag env type payload) db (λ _ t. Unit {0})
unfolding enqueue_if enqueue
unkeyed-Defers env false type payload db = Defers-pure (λ _ t. Unit {0}) tt db tt
unkeyed-Defers env true type payload db = (
  tt,
  (db.next_id, new_job env type payload none none) ∷ db.jobs,
  suc db.next_id,
  refl,
  omega arith,
  record {
    rows = ((db.next_id, new_job env type payload none none) ∷ [], refl);
    keys = λ k r e. e;
    fresh = λ k r e. inl e;
  },
  tt,
)

write_listing_ok :
    (id : ℕ) (row u : Listing) (db mid : Db)
    → write_listing id row db ≡ (ok u, mid)
    → (u ≡ row) × (mid ≡ record db { listings = modify id (λ _. row) db.listings })
unfolding write_listing
write_listing_ok id row u db mid e = (ground arith, ground arith)

-- The jobs of a patch that was written.
follow_up-Defers :
    (env : Env) (id : ℕ) (c : ColumnPatch) (row : Listing) (db : Db)
    → Defers
        (BookingJob env)
        (enqueue_if
            (is_material c)
            env
            JobType.moderation_scan
            (Payload.content_ref ContentType.listing id)
          >> (enqueue_if (is_address_change c) env JobType.listing_geocode (Payload.listing_ref id)
              >> (reschedule env (is_some c.scheduled_start) id row >> pure row)))
        db
        (λ r t. (r ≡ row) × Rescheduled (is_some c.scheduled_start) id row db.bookings t)
follow_up-Defers env id c row db =
    let moved = is_some c.scheduled_start in
    let scan =
      enqueue_if (is_material c) env JobType.moderation_scan
        (Payload.content_ref ContentType.listing id) in
    let geocode =
      enqueue_if (is_address_change c) env JobType.listing_geocode (Payload.listing_ref id) in
    let last : Tx Listing = reschedule env moved id row >> pure row in
    Defers-bind scan (λ _. geocode >> last) db (λ _ t. Unit {0})
      (λ r t. (r ≡ row) × Rescheduled moved id row db.bookings t)
      (unkeyed-Defers env (is_material c) JobType.moderation_scan
        (Payload.content_ref ContentType.listing id) db)
      λ _ t n _.
        Defers-bind geocode (λ _. last) (record db { jobs = t; next_id = n }) (λ _ t. Unit {0})
          (λ r t. (r ≡ row) × Rescheduled moved id row db.bookings t)
          (unkeyed-Defers env (is_address_change c) JobType.listing_geocode (Payload.listing_ref id)
            (record db { jobs = t; next_id = n }))
          λ _ t' n' _.
            Defers-bind (reschedule env moved id row) (λ _. pure row)
              (record db { jobs = t'; next_id = n' })
              (λ _ t. Rescheduled moved id row db.bookings t)
              (λ r t. (r ≡ row) × Rescheduled moved id row db.bookings t)
              (reschedule-Defers env moved id row (record db { jobs = t'; next_id = n' }))
              λ _ t'' n'' due.
                Defers-pure (λ r t. (r ≡ row) × Rescheduled moved id row db.bookings t) row
                  (record db { jobs = t''; next_id = n'' }) (refl, due)

-- What a patch writes: the row, and its jobs.
abbrev pub Written : Env → ℕ → Bool → Listing → Db → Listing → Db → Type 0
Written env id moved row db r db' =
    (jobs : Table Job) × (next : ℕ) × (r ≡ row)
    × (db' ≡ record db { listings = modify id (λ _. row) db.listings; jobs = jobs; next_id = next })
    × (db.next_id ≤ next)
    × Extends (BookingJob env) db.jobs jobs
    × Rescheduled moved id row db.bookings jobs

pub write_patch_ok :
    (env : Env) (id : ℕ) (c : ColumnPatch) (day active : ℕ) (current : Listing) (db : Db)
    (r : Listing) (db' : Db)
    → write_patch env id c day active current db ≡ (ok r, db')
    → Written env id (is_some c.scheduled_start) (apply_patch c day active current) db r db'
unfolding write_patch
write_patch_ok env id c day active current db r db' e =
    let row = apply_patch c day active current in
    let rest : Listing → Tx Listing = λ u.
      enqueue_if (is_material c) env JobType.moderation_scan
        (Payload.content_ref ContentType.listing id)
      >> (enqueue_if (is_address_change c) env JobType.listing_geocode (Payload.listing_ref id)
          >> (reschedule env (is_some c.scheduled_start) id u >> pure u)) in
    let (u, mid, wrote, followed) = >>=_inv (write_listing id row) rest e in
    let (same, after) = write_listing_ok id row u db mid wrote in
    let (a, t, n, eq, le, keeps, (is_row, due)) =
      follow_up-Defers env id c row (record db { listings = modify id (λ _. row) db.listings }) in
    let ran : rest row (record db { listings = modify id (λ _. row) db.listings }) ≡ (ok r, db') =
      subst (λ (m : Db). rest row m ≡ (ok r, db')) after
        (subst (λ (x : Listing). rest x mid ≡ (ok r, db')) same followed) in
    (t, n, ground arith, ground arith, le, keeps, due)
