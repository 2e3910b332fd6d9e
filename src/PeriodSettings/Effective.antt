-- ===== src/PeriodSettings/Effective.antt =====
-- The effective setting depends only on the rows that the queries read.
use info_room_reservation_si.Prelude.{
  ◌≡◌, refl, Bool, true, List, [], ◌∷◌, arith, any, filter, find, Text, text_eq, text_eq_sound,
  text_eq_refl,
}
use info_room_reservation_si.StudyPeriods.{StudyPeriod}
use info_room_reservation_si.PeriodSettings.{
  PeriodSettingSnapshot, global_period_settings_date, period_setting_read_dates, is_row,
  find_setting, resolve_effective_period_setting,
}

-- `where: { date: { in: [...periodSettingReadDates(date)] } }`
unfoldable pub is_read : Text → PeriodSettingSnapshot → Bool
is_read date row = any (λ d. text_eq row.date d) (period_setting_read_dates date)

find-filter :
    {A : Type 0} (p q : A → Bool)
    → ((a : A) → p a ≡ true → q a ≡ true)
    → (xs : List A) → find p (filter q xs) ≡ find p xs
find-filter p q h [] = refl
find-filter p q h (x ∷ xs) = ground (arith, h x, find-filter p q h xs)

is_read_of_date :
    (date : Text) (p : StudyPeriod) (row : PeriodSettingSnapshot)
    → is_row date p row ≡ true
    → is_read date row ≡ true
unfolding is_read period_setting_read_dates is_row
is_read_of_date date p row h = ground (
  arith,
  text_eq_sound row.date date,
  text_eq_sound date global_period_settings_date,
  text_eq_refl global_period_settings_date,
)

is_read_of_global :
    (date : Text) (p : StudyPeriod) (row : PeriodSettingSnapshot)
    → is_row global_period_settings_date p row ≡ true
    → is_read date row ≡ true
unfolding is_read period_setting_read_dates is_row
is_read_of_global date p row h = ground arith

-- Resolving over the rows of the dates that `periodSettingReadDates` names is resolving over the
-- whole table.
pub resolve_effective_period_setting-filter :
    (date : Text) (p : StudyPeriod) (table : List PeriodSettingSnapshot)
    → resolve_effective_period_setting date p (filter (is_read date) table)
      ≡ resolve_effective_period_setting date p table
unfolding resolve_effective_period_setting find_setting
resolve_effective_period_setting-filter date p table = rw (
  find-filter (is_row date p) (is_read date) (is_read_of_date date p) table,
  find-filter (is_row global_period_settings_date p) (is_read date) (is_read_of_global date p)
      table,
)
