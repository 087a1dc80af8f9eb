-- ===== src/Handlers.antt =====
-- src/outbox/handlers: the handlers whose work is modelled, as the worker calls them. The shape of
-- a payload is its type; one of another job is what the handlers refuse with a TypeError.
pub mod Delivery
pub mod Erasing
mod Tests
use homeplate.Base.{ℕ, Option, some, none}
use homeplate.Database.{Env, JobType, Payload, Tx, ◌>>=◌, ◌>>◌, pure, throw, Failure}
use homeplate.Outbox.Worker.{Handler, Registry, Context}
use homeplate.Bookings.Lifecycle.{promote_due_booking}
use homeplate.Moderation.Service.{Scanner, process_scan}
use homeplate.Auth.Sessions.{Scan}
use homeplate.Media.Service.{Storage, delete_for_user}
use homeplate.Privacy.Service.{Deps, Windows, Notice, process_erasure}
use homeplate.Privacy.Copies.{Opener}
use homeplate.Privacy.Exporting.{process_export}
use homeplate.Safety.Delivery.{Channels, handle}

-- moderationScan.js
unfoldable pub moderation_scan : Scanner → Env → Handler
moderation_scan s env (Payload.content_ref type id) ctx = process_scan s env type id >> pure tt
moderation_scan s env _ ctx = throw Failure.type_error

-- bookingPromote.js: the row that is being delivered goes with the call.
unfoldable pub booking_promote : Env → Handler
booking_promote env (Payload.booking_ref id) ctx =
    promote_due_booking env id (some ctx.job_id) >> pure tt
booking_promote env _ ctx = throw Failure.type_error

-- safetyAlert.js: the attempt of the job goes with the call.
unfoldable pub safety_alert : Channels → Env → Handler
safety_alert c env (Payload.alert_ref alert booking) ctx = handle c env alert ctx.attempt >> pure tt
safety_alert c env _ ctx = throw Failure.type_error

-- accountErasure.js: the media service and the transport go with the call.
abbrev pub erasure_deps : Storage → ((user request : ℕ) → Tx (Option Notice)) → Deps
erasure_deps works send = record {
  delete_media = λ user. delete_for_user works user >>= λ d. pure d.deleted_objects;
  send_notice = send;
}

unfoldable pub account_erasure :
    Storage → ((user request : ℕ) → Tx (Option Notice)) → Windows → Scan → Env → Handler
account_erasure works send w scan env (Payload.erasure_ref user request reason) ctx =
    process_erasure env w (erasure_deps works send) scan user request reason >> pure tt
account_erasure works send w scan env _ ctx = throw Failure.type_error

-- dataExport.js
unfoldable pub data_export : Opener → Env → Handler
data_export open_ env (Payload.export_ref user request) ctx = process_export env open_ user request
data_export open_ env _ ctx = throw Failure.type_error

-- The functions that the privacy handlers are given, and the rest of the registry.
pub record Privacy : Type 0 where
  pub works : Storage
  pub send_notice : (user request : ℕ) → Tx (Option Notice)
  pub windows : Windows
  pub scan : Scan
  pub opener : Opener

abbrev pub with_privacy : Privacy → Env → Registry → Registry
with_privacy p env others JobType.account_erasure =
    some (account_erasure p.works p.send_notice p.windows p.scan env)
with_privacy p env others JobType.data_export = some (data_export p.opener env)
with_privacy p env others type = others type

-- The registry with these handlers, and those of the other types.
abbrev pub registry : Scanner → Channels → Env → Registry → Registry
registry s c env others JobType.moderation_scan = some (moderation_scan s env)
registry s c env others JobType.booking_promote = some (booking_promote env)
registry s c env others JobType.safety_alert = some (safety_alert c env)
registry s c env others type = others type
