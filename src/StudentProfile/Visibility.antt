-- ===== src/StudentProfile/Visibility.antt =====
-- A shadow ban stays out of sight, and the status that is shown is the one that bookings go by.
use info_room_reservation_si.Prelude.{
  ℕ, ◌≡◌, refl, Bool, true, false, not, none, List, [], Text, arith, sort_by,
}
use info_room_reservation_si.Reservations.{BookingStatus, active, shadow_banned, is_restricted}
use info_room_reservation_si.ClosedPeriods.{Ordering}
use info_room_reservation_si.StudentProfile.{
  StudentProfileUserRow, StudentProfileReservationRow, StudentProfileSanctionRow,
  get_effective_booking_status, should_expose_student_profile_sanctions,
  summarize_student_profile_sanctions, reduce_sanctions,
}
use info_room_reservation_si.StudentProfile.Payload.{
  build_student_profile_payload, to_student_facing_profile_user,
}

abbrev pub without_ban : StudentProfileUserRow → StudentProfileUserRow
without_ban user = record user {
  booking_status = active;
  restricted_until = none;
  restriction_reason = none;
}

-- The profile of a shadow-banned student is, in every part, that of the same student without any ban,
-- restriction or sanction.
pub build_student_profile_payload-shadow_banned :
    (locale_compare : Text → Text → Ordering) (to_iso_string : ℕ → Text) (kst_today : Text)
    (now : ℕ) (user : StudentProfileUserRow) (reservations : List StudentProfileReservationRow)
    (sanctions : List StudentProfileSanctionRow)
    → user.booking_status ≡ shadow_banned
    → build_student_profile_payload locale_compare to_iso_string kst_today now user reservations
        sanctions
      ≡ build_student_profile_payload locale_compare to_iso_string kst_today now
          (without_ban user)
          reservations
          []
unfolding build_student_profile_payload to_student_facing_profile_user get_effective_booking_status
    should_expose_student_profile_sanctions summarize_student_profile_sanctions reduce_sanctions
    sort_by
build_student_profile_payload-shadow_banned locale_compare to_iso_string kst_today now user
      reservations sanctions h =
    rw h refl

abbrev pub is_active : BookingStatus → Bool
is_active active = true
is_active _ = false

-- A profile shows the status active exactly to the students whom the booking does not refuse as
-- restricted at that time.
pub is_active-get_effective_booking_status :
    (user : StudentProfileUserRow) (now : ℕ)
    → is_active (get_effective_booking_status user now)
      ≡ not (
          is_restricted
            (record {
              booking_status = user.booking_status;
              restricted_until = user.restricted_until;
            })
            now)
unfolding get_effective_booking_status is_restricted
is_active-get_effective_booking_status user now = ground arith
