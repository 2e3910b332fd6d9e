-- ===== src/Lib.antt =====
-- Verification of the reservation site's core, the code under src/lib of the repository.
--
-- Students book one of two evening study periods of a day. A booking is decided by the booking
-- service (src/lib/reservation-service.ts) inside a transaction on a store, from the student's
-- status, the dates that can be booked ahead (src/lib/advance-reservation-policy.ts), the period's
-- setting (src/lib/period-setting-values.ts), its window (src/lib/period-window.ts) and the bookings
-- there are. Around it stand rate limits, tokens against cross-site requests, and operational jobs.
--
-- Prelude: Boolean tests, lists, texts as UTF-16 code units, whole numbers.
-- Calendar: src/lib/date.ts. Instants are milliseconds since 1970, dates the texts YYYY-MM-DD of days
--   in Korea. What Intl and Date do is written out: Korea is nine hours ahead of UTC, and dates are
--   Gregorian. Results on date texts hold before the year 10000, where four digits suffice; no
--   instant before 1970 is modelled.
-- StudyPeriods: src/lib/study-periods.ts.
-- PeriodWindow: src/lib/period-window.ts. `parseInt` is written out for texts with neither sign nor
--   leading space; NaN is `none`.
-- PeriodSettings: src/lib/period-setting-values.ts.
-- AdvancePolicy: src/lib/advance-reservation-policy.ts and src/lib/period-query-policy.ts.
-- ReservationCalendar: src/lib/reservation-calendar.ts.
-- Reservations: src/lib/reservation-service.ts. Checks is the monad of its early returns, Service the
--   operation over a record ReservationStore, Decision and Refusal its answers, and Laws what a store
--   must satisfy so that bookings stay sound. A transaction is one step, since the store runs
--   transactions with the same locks one after another.
-- MemoryStore: src/lib/memory-reservation-store.ts as an instance of the store laws; Lock is its queue
--   of waiting transactions as a step relation.
-- Database: the tables of prisma/schema.prisma as far as the modelled code uses them. Values that are
--   stored as texts stay texts, and parsing them may fail.
-- PrismaStore: src/lib/prisma-reservation-store.ts as an instance of the store laws. A query in a
--   transaction that has failed fails too, which matters where a `finally` makes one.
-- TransactionRetry: the retries and locks of src/lib/db-context.ts. The outcomes of the attempts are a
--   parameter.
-- AdminReservations: src/lib/admin-reservation-operations.ts, src/lib/admin-reservation-transition.ts
--   and src/lib/admin-cancellable-reservations.ts. Which retries are exhausted is a parameter.
-- BulkCancellation: src/lib/admin-bulk-cancellation.ts.
-- NoShow: src/lib/admin-no-show-operations.ts, inside the transaction. Passed has the checks on the
--   way to the ban and Marked what is then in each table.
-- Sanctions: src/lib/admin-user-sanction-service.ts, with the guard of src/lib/admin-users.ts. The
--   lookup of the student and the transaction read different tables, since others may write between.
-- ClosedPeriods: src/lib/closed-period-notifications.ts. `localeCompare` is a parameter.
-- Deliveries: src/lib/closed-period-notification-service.ts, the repository under it in
--   src/lib/prisma-notification-repository.ts, and the classes of errors in
--   src/lib/discord-notifications.ts. Table has the writes, Cells what they do to the delivery of one
--   period, Contracts what the service is given, Service its operations over any repository, Database
--   the one of the table, Kept and Settled what a request leaves in it. The sender, the redaction of
--   messages and the time in a Retry-After header are parameters, as is how the transaction of each
--   save ends: it commits and answers, is rolled back with an error, or commits and its answer is
--   lost. The transactions that claim and resolve deliveries are not made to fail. The applicants of
--   a period are not modelled, nor is the choice of deliveries that are due.
-- Effects: calls of something outside, each of which returns or throws and changes a state of which
--   nothing is known. A run keeps the list of its calls with their answers.
-- Outbox: one claim of src/lib/discord-reservation-outbox-initial.ts and of
--   src/lib/discord-reservation-outbox-sync.ts, with the counts of a run in
--   src/lib/discord-reservation-outbox-contracts.ts. What the repository, the bot and the webhook do is
--   a parameter. A promise that a `try` returns without awaiting it is carried out after the `try`,
--   since its errors are not caught there.
-- Maintenance: src/lib/maintenance-service.ts over any store, where Scan is the clean-up of expired
--   messages at Discord. A stage takes ten batches at most, and the loop counts them down.
-- StudentProfile: src/lib/student-profile.ts and src/lib/student-profile-visibility.ts. `toISOString`
--   and `localeCompare` are parameters.
-- DiscordRepair: src/lib/discord-operations-repair-policy.ts.
-- InteractionJobs: the queue of Discord interactions, src/lib/prisma-discord-interaction-job-store.ts,
--   and its runner, src/lib/discord-interaction-job-runner.ts. Handshake stages a job and acknowledges
--   or abandons it, Claims leases and finishes jobs, Runner drives any store and Store is the one of
--   the database. Each transaction is one step on the job table and the control row; SQL statements
--   are translated column by column. The clock, the identifiers that are drawn, the order of texts in
--   the database and the dispatch of a job are parameters.
-- RateLimit: src/lib/rate-limit.ts with its two stores, src/lib/memory-rate-limit-store.ts and
--   src/lib/prisma-rate-limit-store.ts, whose SQL statement is translated column by column.
-- Csrf: src/lib/csrf.ts and the store in memory of src/lib/csrf-token-store.ts. The random token and
--   the hash are parameters.
-- CustomIds: src/lib/discord-admin-custom-ids.ts. The base64url text of an HMAC is a parameter, of which
--   only is assumed that it has no dots; numerals to the base 36 run on fuel, one more than the number.
-- OperationalJobs: src/lib/operational-jobs.ts, src/lib/operational-job-runner.ts and
--   src/lib/prisma-operational-job-store.ts; Claims interleaves workers as a step relation.
-- Examples: tests on concrete inputs.
--
-- Loops are structural recursion; only numerals run on fuel, one more than the number, which
-- Prelude.Decimal and CustomIds.Base36 show to be enough. Not modelled: pages and components, the
-- routes, messages to Discord, authentication, logging, and the rest of the database code.
pub mod Prelude
pub mod Calendar
pub mod StudyPeriods
pub mod PeriodWindow
pub mod PeriodSettings
pub mod AdvancePolicy
pub mod ReservationCalendar
pub mod Reservations
pub mod InteractionJobs
pub mod MemoryStore
pub mod Database
pub mod PrismaStore
pub mod TransactionRetry
pub mod ClosedPeriods
pub mod AdminReservations
pub mod NoShow
pub mod Deliveries
pub mod Effects
pub mod Outbox
pub mod Maintenance
pub mod DiscordRepair
pub mod Sanctions
pub mod StudentProfile
pub mod RateLimit
pub mod BulkCancellation
pub mod Csrf
pub mod CustomIds
pub mod OperationalJobs
pub mod Examples
