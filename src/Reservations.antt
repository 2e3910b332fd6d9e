-- ===== src/Reservations.antt =====
-- Booking a study period: src/lib/reservation-service.ts. The store is an interface, and its state
-- is passed on explicitly.
pub mod Checks
pub mod Service
pub mod Laws
pub mod Decision
pub mod Refusal
use info_room_reservation_si.Prelude.{
  ℕ, ◌+◌, ◌*◌, Bool, true, false, Option, none, some, Text, codes, ltb,
}
use info_room_reservation_si.StudyPeriods.{StudyPeriod}
use info_room_reservation_si.PeriodSettings.{PeriodSetting}

pub data BookingStatus : Type 0 where
  active restricted banned shadow_banned : BookingStatus

pub data ReservationStatus : Type 0 where
  confirmed cancelled no_show : ReservationStatus

pub record Reservation : Type 0 where
  pub date : Text
  pub id : Text
  pub reason : Option Text
  pub status : ReservationStatus
  pub study_period : StudyPeriod
  pub user_id : Text

pub record UserBookingState : Type 0 where
  pub booking_status : BookingStatus
  pub restricted_until : Option ℕ

pub record BookingRestrictionUpdate : Type 0 where
  pub booking_status : BookingStatus
  pub restricted_until : Option ℕ
  pub restriction_reason : Text

-- Why a booking is refused.
pub data Reason : Type 0 where
  advance_unavailable closed disabled duplicate full : Reason
  not_found not_open_yet restricted shadow_banned : Reason

pub data ReservationResult : Type 0 where
  confirmed : Reservation → ReservationResult
  error : Reason → ReservationResult

-- The input of `createReservation`.
pub record Draft : Type 0 where
  pub date : Text
  pub reason : Text
  pub study_period : StudyPeriod
  pub user_id : Text

-- `invalid_stored_value`, `invalid_date` and `transaction_aborted` stand for errors that the service
-- does not catch.
pub data Exception : Type 0 where
  identity_conflict invalid_stored_value invalid_date transaction_aborted : Exception

pub data Try {ℓ} (A : Type ℓ) : Type ℓ where
  ok : A → Try A
  throw : Exception → Try A

-- `ReservationStore` over a state of type `S`. A call that throws leaves no state.
pub record ReservationStore (S : Type 0) : Type 0 where
  pub count_confirmed_reservations : Text → StudyPeriod → S → ℕ
  pub create_reservation : Draft → S → Try (Reservation × S)
  pub find_reservation : Text → StudyPeriod → Text → S → Try (Option Reservation)
  pub get_period_setting : Text → StudyPeriod → S → Try (Option PeriodSetting)
  pub get_user_booking_state : Text → S → Try (Option UserBookingState)

pub record ReserveStudyPeriodInput : Type 0 where
  pub date : Text
  pub now : ℕ
  pub reason : Text
  pub study_period : StudyPeriod
  pub user_id : Text

abbrev pub student_cancellation_restriction_ms : ℕ
student_cancellation_restriction_ms = 3 * 24 * 60 * 60 * 1000

pub build_student_cancellation_restriction : ℕ → BookingRestrictionUpdate
build_student_cancellation_restriction now = record {
  booking_status = BookingStatus.restricted;
  restricted_until = some (now + student_cancellation_restriction_ms);
  restriction_reason = codes "예약 취소";
}

unfoldable pub build_no_show_ban : Text → BookingRestrictionUpdate
build_no_show_ban reason = record {
  booking_status = BookingStatus.banned;
  restricted_until = none;
  restriction_reason = reason;
}

-- `restrictedUntil === null || restrictedUntil > now`
abbrev pub runs_past : Option ℕ → ℕ → Bool
runs_past none now = true
runs_past (some until) now = ltb now until

abbrev pub is_restricted_status : BookingStatus → Option ℕ → ℕ → Bool
is_restricted_status BookingStatus.banned until now = true
is_restricted_status BookingStatus.restricted until now = runs_past until now
is_restricted_status _ until now = false

unfoldable pub is_restricted : UserBookingState → ℕ → Bool
is_restricted user now = is_restricted_status user.booking_status user.restricted_until now

abbrev pub is_shadow_banned : BookingStatus → Bool
is_shadow_banned BookingStatus.shadow_banned = true
is_shadow_banned _ = false

abbrev pub is_confirmed : ReservationStatus → Bool
is_confirmed ReservationStatus.confirmed = true
is_confirmed _ = false
