-- ===== src/Listings/Sight.antt =====
-- src/modules/listings/access.js: the reasons of canViewPreciseLocation, row by row.
use homeplate.Base.{
  false, refl, ℕ, ◌≡◌, ◌≢◌, ◌↔◌, ◌≤◌, true, some, List, [], ◌∷◌, ◌==◌, leb, arith, ◌⊎◌, inl, inr,
  Option-cases, Bool-cases,
}
use homeplate.Table.{Table, lookup, count}
use homeplate.Database.{BookingStatus, Auth, Db, Listing, SafetyAlert, Booking}
use homeplate.Listings.Service.{is_active_booking}
use homeplate.Listings.Access.{
  is_booking_of, AccessEntry, is_live_guest, has_alert, can_view_precise_location,
}

-- Why a viewer sees the location of a listing, and the log after it.
abbrev pub Shown : Auth → ℕ → Db → List AccessEntry → List AccessEntry → Type 0
Shown v id db log log' =
    (l : Listing) × (lookup id db.listings ≡ some l)
    × (((v.user_id ≡ l.host_id) × (log' ≡ log))
        ⊎ ((v.user_id ≢ l.host_id)
            × (((1 ≤ count (is_live_guest v.user_id id) db.bookings) × (log' ≡ log))
                ⊎ ((count (is_live_guest v.user_id id) db.bookings ≡ 0)
                    × (v.is_moderator ≡ true)
                    × (has_alert id db.bookings db.safety_alerts ≡ true)
                    × (log'
                        ≡ record {
                          actor_user_id = v.user_id;
                          subject_user_id = l.host_id;
                          resource = id;
                        }
                          ∷ log)))))

pub sight_iff :
    (v : Auth) (id : ℕ) (db : Db) (log log' : List AccessEntry)
    → can_view_precise_location (some v) id db log ≡ (true, log') ↔ Shown v id db log log'
unfolding can_view_precise_location
sight_iff v id db log log' = (sees, seen)
  where
    sees : can_view_precise_location (some v) id db log ≡ (true, log') → Shown v id db log log'
    sees e = elim (Option-cases (lookup id db.listings)) [
      | inl missing ↦ absurd (ground arith)
      | inr (l, found) ↦ (
        l,
        found,
        elim (Bool-cases (v.user_id == l.host_id)) [
          | inl host ↦ inl (ground arith, ground (arith, found, host))
          | inr other ↦ inr (
            ground arith,
            elim (Bool-cases (leb 1 (count (is_live_guest v.user_id id) db.bookings))) [
              | inl live ↦ inl (ground arith, ground (arith, found, other, live))
              | inr gone ↦ inr (
                ground arith,
                ground (arith, found, other, gone),
                ground (arith, found, other, gone),
                ground (arith, found, other, gone),
              )
            ],
          )
        ],
      )
    ]

    seen : Shown v id db log log' → can_view_precise_location (some v) id db log ≡ (true, log')
    seen (l, found, how) = elim how [
      | inl (host, same) ↦ ground (arith, found, host, same)
      | inr (other, why) ↦ elim why [
        | inl (live, same) ↦ ground (arith, found, other, live, same)
        | inr (gone, role, alert, logged) ↦ ground (arith, found, other, gone, role, alert, logged)
      ]
    ]

-- Some row of a table is of the kind.
abbrev pub AnyRow : {A : Type 0} → (A → Type 0) → Table A → Type 0
AnyRow P [] = ⊥
AnyRow P ((k, a) ∷ t) = P a ⊎ AnyRow P t

-- A pending or running booking of the listing by the user.
abbrev pub IsLive : (user id : ℕ) → Booking → Type 0
IsLive user id b =
    (b.listing_id ≡ id)
    × (b.guest_id ≡ user)
    × ((b.status ≡ BookingStatus.pending) ⊎ (b.status ≡ BookingStatus.in_progress))

-- An alert on a booking of the listing.
abbrev pub IsAlarmed : ℕ → Table Booking → SafetyAlert → Type 0
IsAlarmed id bookings a =
    (b : Booking) × (lookup a.booking_id bookings ≡ some b) × (b.listing_id ≡ id)

IsLive-cases :
    (user id : ℕ) (b : Booking)
    → ((is_live_guest user id b ≡ true) × IsLive user id b)
      ⊎ ((is_live_guest user id b ≡ false) × ¬ IsLive user id b)
IsLive-cases user id b = elim (Bool-cases (is_live_guest user id b)) [
  | inl live ↦
      inl (
        live,
        (ground (arith, live), ground (arith, live), status_of_live b (ground (arith, live))),
      )
  | inr other ↦ inr (other, refuse other)
]
  where
    status_of_live :
        (c : Booking)
        → is_active_booking c.status ≡ true
        → (c.status ≡ BookingStatus.pending) ⊎ (c.status ≡ BookingStatus.in_progress)
    status_of_live c e = ground arith

    refuse : is_live_guest user id b ≡ false → IsLive user id b → ⊥
    refuse e (l, g, inl p) = ground (arith, e, l, g, p)
    refuse e (l, g, inr p) = ground (arith, e, l, g, p)

IsLive-rows :
    (user id : ℕ) (t : Table Booking)
    → ((1 ≤ count (is_live_guest user id) t) × AnyRow (IsLive user id) t)
      ⊎ ((count (is_live_guest user id) t ≡ 0) × ¬ AnyRow (IsLive user id) t)
IsLive-rows user id [] = inr (refl, (λ x. x))
IsLive-rows user id ((k, b) ∷ t) = elim (IsLive-cases user id b) [
  | inl (live, is) ↦ inl (ground (arith, live), inl is)
  | inr (other, is_not) ↦ elim (IsLive-rows user id t) [
    | inl (some_, any) ↦ inl (ground (arith, other, some_), inr any)
    | inr (zero_, no_row) ↦ inr (
      ground (arith, other, zero_),
      λ x. elim x [ inl here ↦ is_not here | inr there ↦ no_row there ],
    )
  ]
]

IsAlarmed-cases :
    (id : ℕ) (bookings : Table Booking) (a : SafetyAlert)
    → ((is_booking_of id bookings a.booking_id ≡ true) × IsAlarmed id bookings a)
      ⊎ ((is_booking_of id bookings a.booking_id ≡ false) × ¬ IsAlarmed id bookings a)
IsAlarmed-cases id bookings a = elim (Option-cases (lookup a.booking_id bookings)) [
  | inl missing ↦ inr (ground (arith, missing), λ (b, e, _). ground (arith, missing, e))
  | inr (b, found) ↦ elim (Bool-cases (b.listing_id == id)) [
    | inl mine ↦ inl (ground (arith, found, mine), (b, found, ground (arith, mine)))
    | inr other ↦
        inr (ground (arith, found, other), λ (c, e, is). ground (arith, found, e, is, other))
  ]
]

IsAlarmed-rows :
    (id : ℕ) (bookings : Table Booking) (t : Table SafetyAlert)
    → ((has_alert id bookings t ≡ true) × AnyRow (IsAlarmed id bookings) t)
      ⊎ ((has_alert id bookings t ≡ false) × ¬ AnyRow (IsAlarmed id bookings) t)
IsAlarmed-rows id bookings [] = inr (refl, (λ x. x))
IsAlarmed-rows id bookings ((k, a) ∷ t) = elim (IsAlarmed-cases id bookings a) [
  | inl (stands, is) ↦ inl (ground (arith, stands), inl is)
  | inr (other, is_not) ↦ elim (IsAlarmed-rows id bookings t) [
    | inl (yes_, any) ↦ inl (ground (arith, other, yes_), inr any)
    | inr (no_, no_row) ↦ inr (
      ground (arith, other, no_),
      λ x. elim x [ inl here ↦ is_not here | inr there ↦ no_row there ],
    )
  ]
]

-- Why a viewer sees the location of a listing, and the log after it, row by row.
abbrev pub Sees : Auth → ℕ → Db → List AccessEntry → List AccessEntry → Type 0
Sees v id db log log' =
    (l : Listing) × (lookup id db.listings ≡ some l)
    × (((v.user_id ≡ l.host_id) × (log' ≡ log))
        ⊎ ((v.user_id ≢ l.host_id)
            × ((AnyRow (IsLive v.user_id id) db.bookings × (log' ≡ log))
                ⊎ (¬ AnyRow (IsLive v.user_id id) db.bookings
                    × (v.is_moderator ≡ true)
                    × AnyRow (IsAlarmed id db.bookings) db.safety_alerts
                    × (log'
                        ≡ record {
                          actor_user_id = v.user_id;
                          subject_user_id = l.host_id;
                          resource = id;
                        }
                          ∷ log)))))

pub Shown-Sees :
    (v : Auth) (id : ℕ) (db : Db) (log log' : List AccessEntry)
    → Shown v id db log log' ↔ Sees v id db log log'
Shown-Sees v id db log log' = elim (IsLive-rows v.user_id id db.bookings) [
  | inl (live, any) ↦ (
    (λ (l, found, how). (
      l,
      found,
      elim how [
        | inl host ↦ inl host
        | inr (other, inl (_, same)) ↦ inr (other, inl (any, same))
        | inr (other, inr (gone, _, _, _)) ↦ absurd (omega (arith, live, gone))
      ],
    )),
    λ (l, found, how). (
      l,
      found,
      elim how [
        | inl host ↦ inl host
        | inr (other, inl (_, same)) ↦ inr (other, inl (live, same))
        | inr (other, inr (none_, _, _, _)) ↦ absurd (none_ any)
      ],
    ),
  )
  | inr (gone, no_row) ↦ elim (IsAlarmed-rows id db.bookings db.safety_alerts) [
    | inl (alert, any) ↦ (
      (λ (l, found, how). (
        l,
        found,
        elim how [
          | inl host ↦ inl host
          | inr (other, inl (live, _)) ↦ absurd (omega (arith, live, gone))
          | inr (other, inr (_, role, _, log)) ↦ inr (other, inr (no_row, role, any, log))
        ],
      )),
      λ (l, found, how). (
        l,
        found,
        elim how [
          | inl host ↦ inl host
          | inr (other, inl (live, _)) ↦ absurd (no_row live)
          | inr (other, inr (_, role, _, log)) ↦ inr (other, inr (gone, role, alert, log))
        ],
      ),
    )
    | inr (no_alert, none_) ↦ (
      (λ (l, found, how). (
        l,
        found,
        elim how [
          | inl host ↦ inl host
          | inr (other, inl (live, _)) ↦ absurd (omega (arith, live, gone))
          | inr (other, inr (_, _, alert, _)) ↦ absurd (ground (arith, no_alert, alert))
        ],
      )),
      λ (l, found, how). (
        l,
        found,
        elim how [
          | inl host ↦ inl host
          | inr (other, inl (live, _)) ↦ absurd (no_row live)
          | inr (other, inr (_, _, any, _)) ↦ absurd (none_ any)
        ],
      ),
    )
  ]
]
