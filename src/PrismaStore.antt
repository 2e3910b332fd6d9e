-- ===== src/PrismaStore.antt =====
-- The store in the database: src/lib/prisma-reservation-store.ts. A transaction's operations are
-- functions on the tables.
pub mod Rows
pub mod Laws
use info_room_reservation_si.Prelude.{
  ℕ, Bool, true, false, ◌&&◌, Option, none, some, List, [], ◌∷◌, any, find, filter, length, Text,
  codes, text_eq, if◌then◌else◌,
}
use info_room_reservation_si.StudyPeriods.{StudyPeriod, period_text}
use info_room_reservation_si.PeriodSettings.{
  PeriodSetting, PeriodSettingSnapshot, resolve_effective_period_setting,
}
use info_room_reservation_si.PeriodSettings.Effective.{is_read}
use info_room_reservation_si.Reservations.{
  Reservation, UserBookingState, Draft, Exception, identity_conflict, transaction_aborted, Try, ok,
  throw, ReservationStore,
}
use info_room_reservation_si.Database.{
  DatabaseActor, DatabaseActorRole, admin, student, system, ReservationRow, UserRow, MessageRow,
  Database, ◌>>=◌, has_identity, insert_reservation, insert_message, set_database_context,
  parse_booking_status, to_reservation,
}

abbrev pub is_confirmed_slot : Text → StudyPeriod → ReservationRow → Bool
is_confirmed_slot date p row =
    text_eq row.date date
    && (text_eq row.study_period (period_text p) && text_eq row.status (codes "CONFIRMED"))

unfoldable pub prisma_count : Text → StudyPeriod → Database → ℕ
prisma_count date p s = length (filter (is_confirmed_slot date p) s.reservations)

abbrev pub system_database_actor : DatabaseActor
system_database_actor = record { id = none; role = system }

-- A row that `findUnique` reads, parsed.
abbrev pub parse_found : Option ReservationRow → Try (Option Reservation)
parse_found none = ok none
parse_found (some row) = do r ← to_reservation row; ok (some r)

-- It finds the student's row for the period whatever its status.
unfoldable pub prisma_find : Text → StudyPeriod → Text → Database → Try (Option Reservation)
prisma_find date p user_id s =
    parse_found (find (has_identity user_id date (period_text p)) s.reservations)

abbrev pub is_setting_row : Text → StudyPeriod → PeriodSettingSnapshot → Bool
is_setting_row date p row = is_read date row && text_eq row.study_period (period_text p)

unfoldable pub prisma_setting : Text → StudyPeriod → Database → Try (Option PeriodSetting)
prisma_setting date p s = ok (
    some
      (resolve_effective_period_setting date p (filter (is_setting_row date p) s.period_settings)))

abbrev pub booking_state : Option UserRow → Try (Option UserBookingState)
booking_state none = ok none
booking_state (some user) = do
  status ← parse_booking_status user.booking_status
  ok (some (record { booking_status = status; restricted_until = user.restricted_until }))

unfoldable pub prisma_user : Text → Database → Try (Option UserBookingState)
prisma_user user_id s = booking_state (find (λ user. text_eq user.id user_id) s.users)

-- A `finally` whose query runs in the transaction of what failed.
abbrev pub finally_aborted : Try Database → Try Database
finally_aborted (ok s) = ok s
finally_aborted (throw e) = throw transaction_aborted

-- The key that the database gives to a new row, and what a nonce is computed from it, are
-- parameters, as is the clock.
module _ (actor : DatabaseActor) (new_id : Database → Text) (nonce_of : Text → Text)
    (clock : ℕ) where
  -- Students may not write messages, so the context changes for the insertion, and back. When the
  -- insertion fails the transaction is aborted and setting the context back fails too: the error of
  -- that takes the place of the first one.
  unfoldable pub create_message : Text → Database → Try Database
  create_message reservation_id s =
      let message : MessageRow = record {
        created_at = clock;
        nonce = nonce_of reservation_id;
        reservation_id = reservation_id;
      } in
      elim actor.role [
        | student ↦ (do
          written ←
              finally_aborted
                (insert_message message (set_database_context system_database_actor s))
          ok (set_database_context actor written))
        | admin ↦ insert_message message s
        | system ↦ insert_message message s
      ]

  unfoldable pub new_row : Draft → Database → ReservationRow
  new_row draft s = record {
    date = draft.date;
    id = new_id s;
    reason = some draft.reason;
    status = codes "CONFIRMED";
    study_period = period_text draft.study_period;
    user_id = draft.user_id;
  }

  unfoldable pub prisma_create : Draft → Database → Try (Reservation × Database)
  prisma_create draft s =
      if any (has_identity draft.user_id draft.date (period_text draft.study_period)) s.reservations
      then throw identity_conflict
      else (do
        created ← insert_reservation (new_row draft s) s
        announced ← create_message (new_id s) created
        r ← to_reservation (new_row draft s)
        ok (r, announced))

  abbrev pub prisma_store : ReservationStore Database
  prisma_store = record {
    count_confirmed_reservations = prisma_count;
    create_reservation = prisma_create;
    find_reservation = prisma_find;
    get_period_setting = prisma_setting;
    get_user_booking_state = prisma_user;
  }
