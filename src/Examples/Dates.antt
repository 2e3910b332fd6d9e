-- ===== src/Examples/Dates.antt =====
-- Dates, settings and windows. Day 19999 is Thursday 2024-10-03.
use info_room_reservation_si.Prelude.{
  ℕ, ◌+◌, ◌*◌, ◌≡◌, refl, true, some, [], ◌∷◌, codes, arith, List,
}
use info_room_reservation_si.Calendar.{civil_of_day, day_text, kst_day, civil_text}
use info_room_reservation_si.PeriodWindow.{PeriodWindowSetting, time_text}
use info_room_reservation_si.PeriodSettings.{PeriodSettingSnapshot, global_period_settings_date}
use info_room_reservation_si.AdvancePolicy.{is_reservable_date}
use info_room_reservation_si.AdvancePolicy.Dates.{
  policy_on, get_advance_reservation_policy_lem, is_reservable_date_lem,
}
use info_room_reservation_si.ReservationCalendar.{is_selectable_reservation_calendar_date}
use info_room_reservation_si.ReservationCalendar.Week.{
  is_selectable_reservation_calendar_date-is_reservable_date,
}

-- 1970-03-01, after a February of 28 days
march : day_text 59 ≡ codes "1970-03-01"
unfolding day_text civil_text civil_of_day
march = refl

abbrev afternoon : PeriodWindowSetting
afternoon = record { close_time = time_text 980; date = day_text 19999; open_time = time_text 780 }

-- 14:00 in Korea on day 19999
abbrev at_two : ℕ
at_two = 19999 * 86400000 + 5 * 3600000

abbrev table : List PeriodSettingSnapshot
table =
    record {
      capacity = 5;
      close_time = codes "16:20";
      date = codes "2024-10-04";
      enabled = true;
      open_time = codes "13:00";
      study_period = codes "FIRST";
    }
    ∷ record {
      capacity = 7;
      close_time = codes "16:20";
      date = global_period_settings_date;
      enabled = true;
      open_time = codes "12:00";
      study_period = codes "FIRST";
    }
    ∷ []

-- On a Thursday, Friday can be booked.
is_reservable_date_example : is_reservable_date (day_text 20000) at_two ≡ some true
is_reservable_date_example = is_reservable_date_lem 20000 at_two (omega arith) (omega arith)

is_selectable-is_reservable_date_example :
    is_reservable_date (day_text 20000) at_two
    ≡ some (is_selectable_reservation_calendar_date (day_text 20000) (policy_on (kst_day at_two)))
is_selectable-is_reservable_date_example =
    is_selectable_reservation_calendar_date-is_reservable_date (day_text 20000) at_two
      (policy_on (kst_day at_two)) (get_advance_reservation_policy_lem at_two (omega arith))
