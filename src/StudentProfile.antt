-- ===== src/StudentProfile.antt =====
-- What students see of themselves: src/lib/student-profile.ts and src/lib/student-profile-visibility.ts.
-- `toISOString` and `localeCompare` are parameters.
pub mod Payload
pub mod Visibility
use info_room_reservation_si.Prelude.{
  ℕ, ◌+◌, Bool, true, false, not, ◌&&◌, Option, none, some, List, [], ◌∷◌, Text, codes, text_lt,
  filter, map, take, ltb, if◌then◌else◌, sort_by,
}
use info_room_reservation_si.StudyPeriods.{StudyPeriod, study_period_rank}
use info_room_reservation_si.Reservations.{
  BookingStatus, active, restricted, banned, shadow_banned, ReservationStatus, confirmed, cancelled,
  no_show, runs_past, is_shadow_banned, is_confirmed,
}
use info_room_reservation_si.ClosedPeriods.{Ordering, less, equal, greater}

pub record StudentProfileUserRow : Type 0 where
  pub booking_status : BookingStatus
  pub generation : ℕ
  pub name : Text
  pub restriction_reason : Option Text
  pub restricted_until : Option ℕ
  pub role : Text
  pub student_number : Text

pub record StudentProfileReservationRow : Type 0 where
  pub created_at : ℕ
  pub date : Text
  pub status : ReservationStatus
  pub study_period : StudyPeriod
  pub updated_at : ℕ

pub data StudentProfileSanctionStatus : Type 0 where
  active_sanction revoked_sanction : StudentProfileSanctionStatus

pub record StudentProfileSanctionRow : Type 0 where
  pub created_at : ℕ
  pub ends_at : Option ℕ
  pub kind : Text
  pub reason : Text
  pub revoked_at : Option ℕ
  pub starts_at : ℕ
  pub status : StudentProfileSanctionStatus

pub record StudentProfileReservationSummary : Type 0 where
  pub cancelled_count : ℕ
  pub confirmed_count : ℕ
  pub no_show_count : ℕ

pub record StudentProfileSanctionSummary : Type 0 where
  pub active_count : ℕ
  pub permanent_count : ℕ
  pub revoked_count : ℕ
  pub total_count : ℕ

pub record StudentProfileUserPayload : Type 0 where
  pub booking_status : BookingStatus
  pub generation : ℕ
  pub name : Text
  pub restriction_reason : Option Text
  pub restricted_until : Option Text
  pub role : Text
  pub student_number : Text

pub record StudentProfileReservationPayload : Type 0 where
  pub created_at : Text
  pub date : Text
  pub status : ReservationStatus
  pub study_period : StudyPeriod
  pub updated_at : Text

pub record StudentProfileSanctionPayload : Type 0 where
  pub created_at : Text
  pub ends_at : Option Text
  pub kind : Text
  pub reason : Text
  pub revoked_at : Option Text
  pub starts_at : Text
  pub status : StudentProfileSanctionStatus

pub record StudentProfilePayload : Type 0 where
  pub current_reservations : List StudentProfileReservationPayload
  pub effective_status : BookingStatus
  pub recent_reservations : List StudentProfileReservationPayload
  pub recent_sanctions : List StudentProfileSanctionPayload
  pub reservation_summary : StudentProfileReservationSummary
  pub sanction_summary : StudentProfileSanctionSummary
  pub status_message : Text
  pub user : StudentProfileUserPayload

abbrev pub empty_sanction_summary : StudentProfileSanctionSummary
empty_sanction_summary = record {
  active_count = 0;
  permanent_count = 0;
  revoked_count = 0;
  total_count = 0;
}

unfoldable pub should_expose_student_profile_sanctions : StudentProfileUserRow → Bool
should_expose_student_profile_sanctions user = not (is_shadow_banned user.booking_status)

abbrev pub effective_status : BookingStatus → Option ℕ → ℕ → BookingStatus
effective_status active until now = active
effective_status shadow_banned until now = active
effective_status banned until now = banned
effective_status restricted until now = if runs_past until now then restricted else active

unfoldable pub get_effective_booking_status : StudentProfileUserRow → ℕ → BookingStatus
get_effective_booking_status user now =
    effective_status user.booking_status user.restricted_until now

unfoldable pub get_student_profile_status_message : BookingStatus → Text
get_student_profile_status_message active = codes "예약 가능"
get_student_profile_status_message shadow_banned = codes "예약 가능"
get_student_profile_status_message banned = codes "영구 제한"
get_student_profile_status_message restricted = codes "예약 제한"

abbrev pub count_reservation :
    ReservationStatus → StudentProfileReservationSummary → StudentProfileReservationSummary
count_reservation cancelled s = record s { cancelled_count = s.cancelled_count + 1 }
count_reservation confirmed s = record s { confirmed_count = s.confirmed_count + 1 }
count_reservation no_show s = record s { no_show_count = s.no_show_count + 1 }

abbrev pub one_if_none {ℓ} : {A : Type ℓ} → Option A → ℕ
one_if_none none = 1
one_if_none (some a) = 0

abbrev pub one_if_some {ℓ} : {A : Type ℓ} → Option A → ℕ
one_if_some none = 0
one_if_some (some a) = 1

abbrev pub count_sanction :
    StudentProfileSanctionRow
    → StudentProfileSanctionStatus
    → StudentProfileSanctionSummary
    → StudentProfileSanctionSummary
count_sanction sanction active_sanction s = record {
  active_count = s.active_count + 1;
  permanent_count = s.permanent_count + one_if_none sanction.ends_at;
  revoked_count = s.revoked_count + one_if_some sanction.revoked_at;
  total_count = s.total_count + 1;
}
count_sanction sanction revoked_sanction s = record s {
  revoked_count = s.revoked_count + 1;
  total_count = s.total_count + 1;
}

-- `reduce`, from a summary on.
unfoldable pub reduce_reservations :
    List StudentProfileReservationRow
    → StudentProfileReservationSummary
    → StudentProfileReservationSummary
reduce_reservations [] s = s
reduce_reservations (r ∷ rs) s = reduce_reservations rs (count_reservation r.status s)

unfoldable pub reduce_sanctions :
    List StudentProfileSanctionRow → StudentProfileSanctionSummary → StudentProfileSanctionSummary
reduce_sanctions [] s = s
reduce_sanctions (x ∷ xs) s = reduce_sanctions xs (count_sanction x x.status s)

unfoldable pub summarize_student_profile_reservations :
    List StudentProfileReservationRow → StudentProfileReservationSummary
summarize_student_profile_reservations rs =
    reduce_reservations rs (record { cancelled_count = 0; confirmed_count = 0; no_show_count = 0 })

unfoldable pub summarize_student_profile_sanctions :
    List StudentProfileSanctionRow → StudentProfileSanctionSummary
summarize_student_profile_sanctions xs = reduce_sanctions xs empty_sanction_summary
