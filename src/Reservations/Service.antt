-- ===== src/Reservations/Service.antt =====
-- `reserveStudyPeriod`.
use info_room_reservation_si.Prelude.{Bool, true, false, not, Option, none, some, ltb}
use info_room_reservation_si.PeriodWindow.{
  PeriodWindowState, PeriodWindowSetting, open_now, get_period_window_state,
}
use info_room_reservation_si.PeriodSettings.{PeriodSetting}
use info_room_reservation_si.AdvancePolicy.{is_reservable_date}
use info_room_reservation_si.Reservations.{
  advance_unavailable, closed, disabled, duplicate, full, not_found, not_open_yet, restricted,
  shadow_banned, Reservation, ReservationResult, confirmed, error, Draft, identity_conflict,
  invalid_date, Try, ok, throw, ReservationStore, ReserveStudyPeriodInput, is_restricted,
  is_shadow_banned,
}
use info_room_reservation_si.Reservations.Checks.{
  Check, pass, refuse, fail, ◌>>=◌, ◌>>◌, require, call, or_refuse,
}

abbrev pub window_setting : PeriodSetting → PeriodWindowSetting
window_setting s = record { close_time = s.close_time; date = s.date; open_time = s.open_time }

-- `if (windowState !== "open") return { kind: "error", reason: windowState }`
abbrev pub require_open : PeriodWindowState → Check (Unit {0})
require_open PeriodWindowState.closed = refuse closed
require_open PeriodWindowState.not_open_yet = refuse not_open_yet
require_open open_now = pass tt

abbrev pub reservable_date : Option Bool → Try Bool
reservable_date none = throw invalid_date
reservable_date (some b) = ok b

abbrev pub is_none {ℓ} : {A : Type ℓ} → Option A → Bool
is_none none = true
is_none (some a) = false

abbrev pub draft_of : ReserveStudyPeriodInput → Draft
draft_of input = record {
  date = input.date;
  reason = input.reason;
  study_period = input.study_period;
  user_id = input.user_id;
}

module _ {S : Type 0} (store : ReservationStore S) where
  -- The checks that read the setting and the bookings.
  unfoldable pub check_period : ReserveStudyPeriodInput → S → Check PeriodSetting
  check_period input s = do
    found ← call (store.get_period_setting input.date input.study_period s)
    setting ← or_refuse found not_found
    require setting.enabled disabled
    require_open (get_period_window_state (window_setting setting) input.now)
    existing ← call (store.find_reservation input.date input.study_period input.user_id s)
    require (is_none existing) duplicate
    require
        (ltb (store.count_confirmed_reservations input.date input.study_period s) setting.capacity)
        full
    pass setting

  -- The operation inside the transaction, up to its result.
  unfoldable pub attempt : ReserveStudyPeriodInput → S → Check (Reservation × S)
  attempt input s = do
    found ← call (store.get_user_booking_state input.user_id s)
    user ← or_refuse found not_found
    require (not (is_shadow_banned user.booking_status)) shadow_banned
    require (not (is_restricted user input.now)) restricted
    reservable ← call (reservable_date (is_reservable_date input.date input.now))
    require reservable advance_unavailable
    setting ← check_period input s
    call (store.create_reservation (draft_of input) s)

  -- The transaction commits the new state, or leaves the old one when the operation throws; the
  -- identity conflict is caught.
  abbrev pub settle : S → Check (Reservation × S) → Try (ReservationResult × S)
  settle s (pass (reservation, s')) = ok (confirmed reservation, s')
  settle s (refuse reason) = ok (error reason, s)
  settle s (fail identity_conflict) = ok (error duplicate, s)
  settle s (fail e) = throw e

  unfoldable pub reserve_study_period : ReserveStudyPeriodInput → S → Try (ReservationResult × S)
  unfolding attempt
  reserve_study_period input s = settle s (attempt input s)
