-- ===== src/ReservationCalendar.antt =====
-- The week that students see: src/lib/reservation-calendar.ts.
pub mod Week
use info_room_reservation_si.Prelude.{
  ℕ, zero, suc, Bool, true, false, ◌&&◌, Option, none, some, List, [], ◌∷◌, Text, codes, text_eq,
  text_lt, text_le, if◌then◌else◌, pos,
}
use info_room_reservation_si.Calendar.{add_days, kst_day_of_week}
use info_room_reservation_si.AdvancePolicy.{
  AdvanceReservationPolicy, available, unavailable, policy_today, monday_offset, ◌>>=◌,
}

pub record ReservationCalendarDay : Type 0 where
  pub date : Text
  pub day_label : Text
  pub is_advance_window : Bool
  pub is_past : Bool
  pub is_today : Bool
  pub selectable : Bool

abbrev pub weekday_label_at : ℕ → Text
weekday_label_at zero = codes "일"
weekday_label_at (suc zero) = codes "월"
weekday_label_at (suc (suc zero)) = codes "화"
weekday_label_at (suc (suc (suc zero))) = codes "수"
weekday_label_at (suc (suc (suc (suc zero)))) = codes "목"
weekday_label_at (suc (suc (suc (suc (suc zero))))) = codes "금"
weekday_label_at (suc (suc (suc (suc (suc (suc zero)))))) = codes "토"
weekday_label_at _ = codes ""

unfoldable pub weekday_label : Text → Text
weekday_label date = elim (kst_day_of_week date) [ none ↦ codes "" | some w ↦ weekday_label_at w ]

unfoldable pub is_advance_reservation_date : Text → AdvanceReservationPolicy → Bool
is_advance_reservation_date date (unavailable today) = false
is_advance_reservation_date date (available max_date min_date today) =
    text_le min_date date && text_le date max_date

unfoldable pub is_selectable_reservation_calendar_date : Text → AdvanceReservationPolicy → Bool
is_selectable_reservation_calendar_date date policy =
    if text_eq date (policy_today policy) then true else is_advance_reservation_date date policy

unfoldable pub calendar_day : AdvanceReservationPolicy → Text → ReservationCalendarDay
calendar_day policy date = record {
  date = date;
  day_label = weekday_label date;
  is_advance_window = is_advance_reservation_date date policy;
  is_past = text_lt date (policy_today policy);
  is_today = text_eq date (policy_today policy);
  selectable = is_selectable_reservation_calendar_date date policy;
}

-- The five dates from `week_start` on; `none` as in `add_days`.
unfoldable pub week_days : AdvanceReservationPolicy → Text → Option (List ReservationCalendarDay)
week_days policy week_start = do
  d0 ← add_days week_start (pos 0)
  d1 ← add_days week_start (pos 1)
  d2 ← add_days week_start (pos 2)
  d3 ← add_days week_start (pos 3)
  d4 ← add_days week_start (pos 4)
  some (
      calendar_day policy d0
      ∷ calendar_day policy d1
      ∷ calendar_day policy d2
      ∷ calendar_day policy d3
      ∷ calendar_day policy d4
      ∷ [])

unfoldable pub build_reservation_calendar_days :
    AdvanceReservationPolicy → Option (List ReservationCalendarDay)
build_reservation_calendar_days policy = do
  day_of_week ← kst_day_of_week (policy_today policy)
  week_start ← add_days (policy_today policy) (monday_offset day_of_week)
  week_days policy week_start
