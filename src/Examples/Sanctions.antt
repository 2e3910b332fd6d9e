-- ===== src/Examples/Sanctions.antt =====
-- Students who are restricted and released.
use info_room_reservation_si.Prelude.{◌*◌, ◌≡◌, refl, none, some, codes, text_eq, count}
use info_room_reservation_si.Reservations.{BookingStatus, Reason, ok, error}
use info_room_reservation_si.Reservations.Service.{reserve_study_period}
use info_room_reservation_si.Database.{UserRow, Database}
use info_room_reservation_si.PrismaStore.{prisma_store, prisma_user}
use info_room_reservation_si.NoShow.{is_active_of}
use info_room_reservation_si.Sanctions.{
  restricted, normal, SanctionInput, ReleaseInput, restriction, ok_sanction, self_restriction,
  assert_restrictable_user, same_sanction, matches_release_type, update_user_row, find_student_id,
  sanctioned, released,
}
use info_room_reservation_si.Sanctions.Transactions.{
  sanction_user, apply_allowed, apply_in_transaction, apply_administrator_user_sanction,
  release_user, remove_in_transaction, remove_administrator_user_sanction,
}
use info_room_reservation_si.Sanctions.Standing.{
  reserve_study_period-apply_administrator_user_sanction,
}
use info_room_reservation_si.Sanctions.Outcomes.{apply_administrator_user_sanction-fails}
use info_room_reservation_si.Sanctions.Release.{remove_administrator_user_sanction-releases}
use info_room_reservation_si.Examples.Tables.{nobody, pupil, new_key, nonce, request, booked_once}

abbrev restrict : SanctionInput
restrict = record {
  actor_id = codes "admin";
  days = some 3;
  ip_hash = codes "h";
  now = 9 * 3600000;
  profile = normal;
  reason = codes "noise";
  status = restricted;
  student_number = codes "30101";
}

abbrev restricted_tables : Database
restricted_tables =
    (sanction_user new_key restrict (codes "u1") pupil (0, booked_once.reservations) booked_once).1

abbrev restricted_pupil : UserRow
restricted_pupil = sanctioned restrict pupil

restrict_run :
    apply_administrator_user_sanction new_key restrict booked_once booked_once
    ≡ ok (ok_sanction (codes "ACTIVE") 0 restricted_pupil, restricted_tables)
unfolding apply_administrator_user_sanction find_student_id apply_in_transaction apply_allowed
    assert_restrictable_user same_sanction text_eq
restrict_run = refl

reserve_study_period-apply_administrator_user_sanction_example :
    reserve_study_period (prisma_store nobody new_key nonce 0) request restricted_tables
    ≡ ok (error Reason.restricted, restricted_tables)
reserve_study_period-apply_administrator_user_sanction_example =
    reserve_study_period-apply_administrator_user_sanction new_key restrict booked_once booked_once
      restricted_tables (codes "ACTIVE") 0 restricted_pupil restrict_run nobody new_key nonce 0
      request refl refl

-- A student who is an actor may not sanction themselves.
abbrev own : SanctionInput
own = record restrict { actor_id = codes "u1" }

own_run :
    apply_administrator_user_sanction new_key own booked_once booked_once
    ≡ ok (self_restriction, booked_once)
unfolding apply_administrator_user_sanction find_student_id apply_in_transaction
    assert_restrictable_user text_eq
own_run = refl

apply_administrator_user_sanction-fails_example : booked_once ≡ booked_once
apply_administrator_user_sanction-fails_example =
    apply_administrator_user_sanction-fails new_key own booked_once booked_once booked_once
      self_restriction refl own_run

abbrev lifting : ReleaseInput
lifting = record {
  actor_id = codes "admin";
  ip_hash = codes "h";
  reason = codes "over";
  release_type = restriction;
  student_number = codes "30101";
}

abbrev released_tables : Database
released_tables = (release_user new_key 5 lifting (codes "u1") restricted_pupil restricted_tables).1

release_run :
    remove_administrator_user_sanction new_key 5 lifting restricted_tables restricted_tables
    ≡ (ok_sanction (codes "RESTRICTED") 0 (released restricted_pupil), released_tables)
unfolding remove_administrator_user_sanction find_student_id remove_in_transaction
    assert_restrictable_user matches_release_type text_eq update_user_row
release_run = refl

remove_administrator_user_sanction-releases_example :
    (prisma_user (codes "u1") released_tables
      ≡ ok (some (record { booking_status = BookingStatus.active; restricted_until = none })))
    × (count (is_active_of (codes "u1")) released_tables.sanctions ≡ 0)
    × (released_tables.reservations ≡ restricted_tables.reservations)
remove_administrator_user_sanction-releases_example =
    remove_administrator_user_sanction-releases new_key 5 lifting restricted_tables
      restricted_tables released_tables (codes "RESTRICTED") 0 (released restricted_pupil)
      release_run
