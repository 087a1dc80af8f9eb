-- ===== src/Bookings/Deferred.antt =====
-- The jobs that a booking's transaction enqueues: they never fail it, and touch only the outbox.
use homeplate.Base.{refl, ℕ, ◌≡◌, true, some, none, List, [], ◌∷◌}
use homeplate.Table.{Table}
use homeplate.Database.{Db, Env, Job, JobType, Payload, DedupeKey, Event, >>=_ok, ◌>>=◌, pure}
use homeplate.Outbox.Enqueue.{enqueue}
use homeplate.Outbox.Keys.{
  has_key, KeepsKeys, IsDue, Extends-KeepsKeys, Defers, Defers-pure, Defers-bind, enqueue-Defers,
}
use homeplate.Bookings.Lifecycle.{enqueue_booking_notifications, enqueue_promotion}

-- The jobs that belong to a booking, by their keys: the notification of one recipient, due at
-- once, and the promotion, due at the start that the key names.
abbrev pub BookingJob : Env → DedupeKey → Job → Type 0
BookingJob env (DedupeKey.notify booking event r) j =
    IsDue JobType.notify_booking (Payload.notification booking event r) env.now j
BookingJob env (DedupeKey.promote booking at) j =
    IsDue JobType.booking_promote (Payload.booking_ref booking) at j
BookingJob env _ j = ⊥

-- A job for every recipient of the event.
abbrev pub Notified : ℕ → Event → List ℕ → Table Job → Type 0
Notified booking event [] t = Unit {0}
Notified booking event (r ∷ rs) t =
    (has_key (DedupeKey.notify booking event r) t ≡ true) × Notified booking event rs t

-- Notified only grows with the keys.
pub Notified-mono :
    (booking : ℕ) (event : Event) (rs : List ℕ) (t u : Table Job)
    → KeepsKeys t u
    → Notified booking event rs t
    → Notified booking event rs u
Notified-mono booking event [] t u keeps h = tt
Notified-mono booking event (r ∷ rs) t u keeps h =
    (keeps (DedupeKey.notify booking event r) h.0, Notified-mono booking event rs t u keeps h.1)

pub notifications-Defers :
    (env : Env) (booking : ℕ) (event : Event) (recipients : List ℕ) (db : Db)
    → Defers
        (BookingJob env)
        (enqueue_booking_notifications env booking event recipients)
        db
        (λ _ t. Notified booking event recipients t)
unfolding enqueue_booking_notifications
notifications-Defers env booking event [] db = Defers-pure _ [] db tt
notifications-Defers env booking event (r ∷ rs) db =
    Defers-bind
      (enqueue env JobType.notify_booking (Payload.notification booking event r)
        (some (DedupeKey.notify booking event r)) none)
      (λ e. enqueue_booking_notifications env booking event rs >>= λ jobs. pure (e.job ∷ jobs)) db
      (λ _ t. has_key (DedupeKey.notify booking event r) t ≡ true)
      (λ _ t. Notified booking event (r ∷ rs) t)
      (enqueue-Defers (BookingJob env) env JobType.notify_booking
        (Payload.notification booking event r) (DedupeKey.notify booking event r) none db
        (refl, refl, refl, refl, refl))
      λ e t n mine.
        let (js, t', n', eq, le, keeps, rest) =
          notifications-Defers env booking event rs (record db { jobs = t; next_id = n }) in
        (
          e.job ∷ js,
          t',
          n',
          >>=_ok (enqueue_booking_notifications env booking event rs) (λ jobs. pure (e.job ∷ jobs))
              eq,
          le,
          keeps,
          (Extends-KeepsKeys keeps (DedupeKey.notify booking event r) mine, rest),
        )

pub promotion-Defers :
    (env : Env) (booking at : ℕ) (db : Db)
    → Defers
        (BookingJob env)
        (enqueue_promotion env booking at)
        db
        (λ _ t. has_key (DedupeKey.promote booking at) t ≡ true)
unfolding enqueue_promotion
promotion-Defers env booking at db =
    let (e, t, n, eq, le, keeps, mine) =
      enqueue-Defers (BookingJob env) env JobType.booking_promote (Payload.booking_ref booking)
        (DedupeKey.promote booking at) (some at) db (refl, refl, refl, refl, refl) in
    (
      e.job,
      t,
      n,
      >>=_ok
          (enqueue env JobType.booking_promote (Payload.booking_ref booking)
            (some (DedupeKey.promote booking at)) (some at))
          (λ r. pure r.job) eq,
      le,
      keeps,
      mine,
    )
