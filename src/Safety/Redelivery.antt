-- ===== src/Safety/Redelivery.antt =====
-- A second delivery of an alert that has reached an end.
use homeplate.Base.{ℕ, ◌≡◌, true, some, arith, inl, inr, Option-cases, Bool-cases}
use homeplate.Database.{Db, Env, ok, SafetyAlert}
use homeplate.Safety.Repo.{load_for_delivery}
use homeplate.Safety.Delivery.{Channels, Delivered, is_terminal, handle}
use homeplate.Safety.Handling.{IsForeign, handle_marks}
use homeplate.Safety.Marks.{loaded-lookup}

handle-noop :
    (c : Channels) (env : Env) (id attempt : ℕ) (db : Db)
    → ((a : SafetyAlert) → load_for_delivery id db ≡ some a → is_terminal a.delivery_status ≡ true)
    → handle c env id attempt db ≡ (ok Delivered.noop, db)
unfolding handle
handle-noop c env id attempt db ended = elim (Option-cases (load_for_delivery id db)) [
  | inl gone ↦ ground arith
  | inr (a, loaded) ↦ ground (arith, ended a loaded)
]

-- A job that is delivered again after the handler returned does nothing, whatever the services
-- would do by then, given that they never threw the code of the unreadable contact before.
pub handle_again :
    (c : Channels) (foreign : IsForeign c) (env : Env) (id attempt : ℕ) (db db' : Db)
    (d : Delivered) (later : Channels) (env' : Env) (attempt' : ℕ)
    → handle c env id attempt db ≡ (ok d, db')
    → handle later env' id attempt' db' ≡ (ok Delivered.noop, db')
handle_again c foreign env id attempt db db' d later env' attempt' e =
    handle-noop later env' id attempt' db' (λ b loaded.
      elim (Option-cases (load_for_delivery id db)) [
        | inl gone ↦
            let ran = handle-noop c env id attempt db (λ a there. absurd (ground arith)) in
            absurd (ground arith)
        | inr (a, before) ↦ elim (Bool-cases (is_terminal a.delivery_status)) [
          | inl ended ↦
              let ran = handle-noop c env id attempt db (λ x there. ground arith) in ground arith
          | inr open_ ↦
              let ((x, found, is), _) = handle_marks c foreign env id attempt db a before open_ in
              let there = loaded-lookup id db' loaded in
              let same : x ≡ b = ground arith in
              elim is [
                | inl (_, s) ↦ ground arith
                | inr (inl (_, s)) ↦ ground arith
                | inr (inr (y, failed, _)) ↦ absurd (ground arith)
              ]
        ]
      ])
