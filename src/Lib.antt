-- ===== src/Lib.antt =====
-- Homeplate, a marketplace for home-cooked meals: a model of its server's core, and its theorems.
--
-- The server is a set of modules over one PostgreSQL database. A request calls a service, which
-- runs its statements in one transaction and writes what is to be done later (mail, promotions,
-- moderation, geocoding) as rows of outbox_jobs in the same transaction; a worker polls these
-- rows and runs their handlers.
--
-- The files, and the code that they are about:
--   Base, Table          shared names; tables of rows under their ids, and updates of them
--   Database             db/migrations and src/db/tx.js, src/lib/errors.js: the rows (Rows,
--                        Accounts, Columns, Exports), the errors, and the transaction
--   Outbox/Enqueue       src/outbox/outbox.js: enqueue, requeueDeadLetter
--   Outbox/Worker        src/outbox/worker.js: claimBatch, processClaimedJob, pollOnce; and
--                        computeBackoffDelay of src/lib/resilience.js
--   Bookings/Repo, Bookings/Lifecycle, Bookings/Service
--                        src/modules/bookings: repo.js, lifecycle.js, service.js
--   Listings/Mehko       src/modules/listings/mehko.js: assertWithinCaps, weekRangeFor
--   Listings/Service     src/modules/listings: createListing, cancelListing and their statements
--   Listings/Update      src/modules/listings: updateListing and its statements
--   Listings/Access      src/modules/listings/access.js: canViewPreciseLocation
--   Eligibility/Policy   src/modules/eligibility: repo.js and policy.js
--   Moderation/Prefilter, Moderation/Repo, Moderation/Service, Moderation/Decision
--                        src/modules/moderation: prefilter.js, repo.js, service.js
--   Messaging/Thread     src/modules/messaging: service.js and repo.js
--   Reviews/Service      src/modules/reviews: service.js and repo.js
--   Safety/Repo, Safety/Service, Safety/Delivery
--                        src/modules/safety and src/outbox/handlers/safetyAlert.js
--   Bookings/Participants  findParticipantBooking, for messages, reviews and alerts
--   Auth/Redis, Auth/RateLimit
--                        src/modules/auth/rateLimit.js and its callers in service.js, over an
--                        interface of Redis; Auth/Windows is what the limits promise
--   Auth/Sessions        src/modules/auth/sessions.js, and destroySessionsForUser of
--                        src/modules/privacy/service.js
--   FieldCrypto          src/db/fieldCrypto.js
--   Resilience           src/lib/resilience.js: withResilience
--   Media/Service        src/modules/media: service.js and repo.js
--   Privacy/Requests, Privacy/Erasing, Privacy/Copies
--                        src/modules/privacy/repo.js: the requests, the statements of an erasure,
--                        and collectExport
--   Privacy/Service, Privacy/Exporting
--                        src/modules/privacy/service.js: the deletion and the erasure of accounts;
--                        the exports and the inactivity sweep
--   Handlers             src/outbox/handlers: moderationScan, bookingPromote, safetyAlert,
--                        accountErasure, dataExport
--   System, System/Queue any order of calls of the services, and any order of the commits that
--                        write the moderators' queue
-- A function has the source's name in snake_case. The other files of a directory hold the
-- theorems about its definitions, and its Tests their instances at concrete inputs.
--
-- How the code is read:
--   * A statement is a function of the whole database to a result and the database after it
--     (Tx). A service is a do block of these. What a body wrote before an error stands until
--     with_transaction puts the old database back.
--   * A transaction is one step: the row locks that the services take make concurrent ones wait
--     for one another. A row that another worker holds, for SKIP LOCKED, is told by row_locked.
--     createListing takes no lock: the unique index on a host's day stands against concurrent calls,
--     and nothing in the source does for the caps on seats, so what is said of these holds for
--     calls that follow one another.
--   * PostgreSQL's now() and Node's Date.now() are two clocks in Env, and may differ.
--   * Ids are numbers, and a new row takes the next; instants are milliseconds since 1970, and a
--     date its number of days. The week of a date is right from Monday, 1970-01-05, on, since
--     subtraction stops at 0 before it. Intl.DateTimeFormat, which gives the local date of an
--     instant, is a field of Locale.
--   * Payloads and dedupe keys are data types in place of JSON and strings.
--   * A handler of the worker is any function on the database. PostgreSQL's btrim and
--     JavaScript's trim are arguments of the eligibility policy.
--   * A scan of a content reads and classifies in one step, begin_scan, and writes in another,
--     finish_scan: process_scan is the two with nothing between them.
--   * The sessions of Redis stand beside the tables, since their calls follow the transactions; an
--     expired key is one whose time is over by Node's clock.
--   * A job that reads, waits for others and writes is two steps, as begin_export and
--     finish_export are. The functions that the erasure is given (the media service, the transport)
--     are arguments, and Handlers puts the media service in.
--   * withResilience's onFallback is a promise of its own, which settles after some time or never.
--   * What is not in the repository is an argument with its documented behaviour: the classifier
--     and JavaScript's regular expressions (Scanner, Patterns), Redis, the cipher of Node
--     (Cipher), and the mail transport (Channels). A confidence is the bit pattern of its double.
--   * All recursion is on the structure of a list or on the retries that are left, so nothing
--     takes fuel.
--
-- Not modelled: audit lines, error details, updated_at columns, the serializers, read-only lists
-- but that of messages, the checks for personal data in payloads, photos of reviews, the cookies
-- of sessions, and the modules for search, registration and users, the adapters of external
-- services, and the client.
pub mod Base
pub mod Table
pub mod Database
pub mod Outbox
pub mod Bookings
pub mod Listings
pub mod Eligibility
pub mod Moderation
pub mod Messaging
pub mod Reviews
pub mod Safety
pub mod Auth
pub mod FieldCrypto
pub mod Resilience
pub mod Media
pub mod Privacy
pub mod Handlers
pub mod System
