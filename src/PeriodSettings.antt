-- ===== src/PeriodSettings.antt =====
-- Which setting applies to a period: src/lib/period-setting-values.ts.
pub mod Effective
use info_room_reservation_si.Prelude.{
  ℕ, Bool, true, ◌&&◌, Option, none, some, List, [], ◌∷◌, find, Text, codes, text_eq, if◌then◌else◌,
}
use info_room_reservation_si.StudyPeriods.{StudyPeriod, default_period_capacity, period_text}

abbrev pub default_period_open_time : Text
default_period_open_time = codes "13:00"

abbrev pub default_period_close_time : Text
default_period_close_time = codes "16:20"

abbrev pub global_period_settings_date : Text
global_period_settings_date = codes "__global__"

-- A row as it is stored; its period is a text.
pub record PeriodSettingSnapshot : Type 0 where
  pub capacity : ℕ
  pub close_time : Text
  pub date : Text
  pub enabled : Bool
  pub open_time : Text
  pub study_period : Text

-- `PeriodSettingDefaults` of period-setting-values.ts, `PeriodSetting` of reservation-service.ts.
pub record PeriodSetting : Type 0 where
  pub capacity : ℕ
  pub close_time : Text
  pub date : Text
  pub enabled : Bool
  pub open_time : Text
  pub study_period : StudyPeriod

unfoldable pub period_setting_read_dates : Text → List Text
period_setting_read_dates date =
    if text_eq date global_period_settings_date
    then global_period_settings_date ∷ []
    else date ∷ global_period_settings_date ∷ []

unfoldable pub build_default_period_setting : Text → StudyPeriod → PeriodSetting
build_default_period_setting date p = record {
  capacity = default_period_capacity;
  close_time = default_period_close_time;
  date = date;
  enabled = true;
  open_time = default_period_open_time;
  study_period = p;
}

-- The row of a date and a period.
unfoldable pub is_row : Text → StudyPeriod → PeriodSettingSnapshot → Bool
is_row date p row = text_eq row.date date && text_eq row.study_period (period_text p)

-- `a ?? b`
abbrev pub or_else {ℓ} : {A : Type ℓ} → Option A → Option A → Option A
or_else none b = b
or_else (some a) b = some a

unfoldable pub find_setting :
    Text → StudyPeriod → List PeriodSettingSnapshot → Option PeriodSettingSnapshot
find_setting date p settings =
    or_else (find (is_row date p) settings) (find (is_row global_period_settings_date p) settings)

abbrev pub effective_of : Text → StudyPeriod → Option PeriodSettingSnapshot → PeriodSetting
effective_of date p none = build_default_period_setting date p
effective_of date p (some row) = record {
  capacity = row.capacity;
  close_time = row.close_time;
  date = date;
  enabled = row.enabled;
  open_time = row.open_time;
  study_period = p;
}

unfoldable pub resolve_effective_period_setting :
    Text → StudyPeriod → List PeriodSettingSnapshot → PeriodSetting
resolve_effective_period_setting date p settings =
    effective_of date p (find_setting date p settings)
