-- ===== src/Examples/Mutations.antt =====
-- Bookings and cancellations in the database.
use info_room_reservation_si.Prelude.{
  Bool, ◌+◌, ◌≡◌, refl, false, none, [], ◌∷◌, Text, codes, text_eq, arith, if◌then◌else◌,
}
use info_room_reservation_si.StudyPeriods.{first}
use info_room_reservation_si.Reservations.{Reservation, ReservationStatus}
use info_room_reservation_si.Reservations.Laws.{IsSound, run}
use info_room_reservation_si.PrismaStore.{is_confirmed_slot, prisma_count, prisma_store}
use info_room_reservation_si.PrismaStore.Laws.{prisma_store_laws, run-prisma_store-IsSound}
use info_room_reservation_si.AdminReservations.{
  AdministratorCancellationInput, web_admin, cancel_administrator_reservation_in_transaction,
}
use info_room_reservation_si.AdminReservations.Cancellation.{
  prisma_count-cancel_administrator_reservation_in_transaction,
}
use info_room_reservation_si.BulkCancellation.{
  AdministratorBulkCancellationInput, execute, preview, bulk_cancel_administrator_reservations,
}
use info_room_reservation_si.BulkCancellation.Steps.{IsKeyed}
use info_room_reservation_si.BulkCancellation.Preview.{
  bulk_cancel_administrator_reservations-preview,
}
use info_room_reservation_si.Examples.Tables.{
  nobody, row_of, database, new_key, nonce, request, booked_once,
}

run-prisma_store-IsSound_example :
    IsSound (prisma_store nobody new_key nonce 0) (prisma_store_laws nobody new_key nonce 0) (
      run
        (prisma_store nobody new_key nonce 0)
        (prisma_store_laws nobody new_key nonce 0)
        (request ∷ request ∷ [])
        (database []))
run-prisma_store-IsSound_example =
    run-prisma_store-IsSound nobody new_key nonce 0 (request ∷ request ∷ []) (database []) refl

abbrev any_reservation : Reservation
any_reservation = record {
  date = codes "1970-01-01";
  id = codes "k1";
  reason = none;
  status = ReservationStatus.confirmed;
  study_period = first;
  user_id = codes "u1";
}

abbrev cancellation : AdministratorCancellationInput
cancellation = record {
  actor_id = codes "admin";
  ip_hash = codes "h";
  reason = codes "closed room";
  reservation_id = codes "r1";
  source = web_admin;
}

prisma_count-cancel_administrator_reservation_in_transaction_example :
    prisma_count
        (codes "1970-01-01")
        first
        (cancel_administrator_reservation_in_transaction new_key cancellation booked_once).1
      + (if is_confirmed_slot (codes "1970-01-01") first (row_of (codes "CONFIRMED")) then 1 else 0)
    ≡ prisma_count (codes "1970-01-01") first booked_once
prisma_count-cancel_administrator_reservation_in_transaction_example =
    prisma_count-cancel_administrator_reservation_in_transaction new_key cancellation booked_once
      (row_of (codes "CONFIRMED")) (unfold text_eq in record { found = refl; once = omega arith })
      (unfold text_eq in refl) (codes "1970-01-01") first

abbrev selection : AdministratorBulkCancellationInput
selection = record {
  actor_id = codes "admin";
  ip_hash = codes "h";
  mode = preview;
  reason = codes "closed room";
  reservation_ids = codes "r1" ∷ codes "r2" ∷ [];
  source = web_admin;
}

abbrev no_conflict : Text → Bool
no_conflict id = false

booked_once-IsKeyed : IsKeyed booked_once.reservations
booked_once-IsKeyed id = ground arith

bulk_cancel_administrator_reservations-preview_example :
    ((bulk_cancel_administrator_reservations new_key no_conflict
        (record selection { mode = execute })
        booked_once).0
      ≡ (bulk_cancel_administrator_reservations new_key no_conflict
          (record selection { mode = preview })
          booked_once).0)
    × ((bulk_cancel_administrator_reservations new_key no_conflict
          (record selection { mode = preview })
          booked_once).1
        ≡ booked_once)
bulk_cancel_administrator_reservations-preview_example =
    bulk_cancel_administrator_reservations-preview new_key no_conflict selection booked_once
      (λ id. refl) booked_once-IsKeyed
