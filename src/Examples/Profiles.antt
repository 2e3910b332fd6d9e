-- ===== src/Examples/Profiles.antt =====
-- Profiles of students.
use info_room_reservation_si.Prelude.{ℕ, ◌≡◌, refl, none, some, [], ◌∷◌, Text, codes}
use info_room_reservation_si.Reservations.{BookingStatus, shadow_banned}
use info_room_reservation_si.ClosedPeriods.{Ordering, equal}
use info_room_reservation_si.StudentProfile.{
  StudentProfileUserRow, StudentProfileSanctionRow, active_sanction,
}
use info_room_reservation_si.StudentProfile.Payload.{build_student_profile_payload}
use info_room_reservation_si.StudentProfile.Visibility.{
  without_ban, build_student_profile_payload-shadow_banned,
}

abbrev student_with : BookingStatus → StudentProfileUserRow
student_with status = record {
  booking_status = status;
  generation = 12;
  name = codes "A";
  restriction_reason = some (codes "noise");
  restricted_until = some 500;
  role = codes "STUDENT";
  student_number = codes "1101";
}

abbrev sanction : StudentProfileSanctionRow
sanction = record {
  created_at = 1;
  ends_at = none;
  kind = codes "SHADOW_BAN";
  reason = codes "noise";
  revoked_at = none;
  starts_at = 1;
  status = active_sanction;
}

abbrev same_date : Text → Text → Ordering
same_date a b = equal

abbrev iso : ℕ → Text
iso t = t ∷ []

build_student_profile_payload-shadow_banned_example :
    build_student_profile_payload same_date iso
      (codes "2024-10-03")
      100
      (student_with shadow_banned)
      []
      (sanction ∷ [])
    ≡ build_student_profile_payload same_date iso
        (codes "2024-10-03")
        100
        (without_ban (student_with shadow_banned))
        []
        []
build_student_profile_payload-shadow_banned_example =
    build_student_profile_payload-shadow_banned same_date iso (codes "2024-10-03") 100
      (student_with shadow_banned) [] (sanction ∷ []) refl
