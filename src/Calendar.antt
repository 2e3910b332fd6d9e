-- ===== src/Calendar.antt =====
-- Dates of the site: src/lib/date.ts, and what it takes from JavaScript's Date and Intl. An instant
-- is a count of milliseconds since 1970-01-01T00:00Z, and a day a count of days since 1970-01-01 in
-- Korea, whose clock is nine hours ahead of UTC all year.
pub mod Days
pub mod Format
use info_room_reservation_si.Prelude.{
  ℕ, zero, suc, ◌+◌, ◌-◌, ◌*◌, ◌/◌, ◌%◌, ◌≤◌, Bool, not, ◌&&◌, ◌||◌, Option, none, some, [], ◌∷◌,
  Text, ltb, leb, ◌==◌, if◌then◌else◌, ℤ, pos, negsuc,
}

abbrev pub ms_per_day : ℕ
ms_per_day = 86400000

abbrev pub kst_offset : ℕ
kst_offset = 32400000

-- Days and instants below these limits lie before the year 10000.
abbrev pub day_limit : ℕ
day_limit = 2930950

-- A date of the Gregorian calendar.
pub record Civil : Type 0 where
  pub year : ℕ
  pub month : ℕ
  pub day : ℕ

unfoldable pub is_leap : ℕ → Bool
is_leap y = (y % 4 == 0 && not (y % 100 == 0)) || y % 400 == 0

unfoldable pub days_in_month : ℕ → ℕ → ℕ
unfolding is_leap
days_in_month y m =
    if m == 2
    then (if is_leap y then 29 else 28)
    else if m == 4 || m == 6 || m == 9 || m == 11
    then 30
    else 31

unfoldable pub next_day : Civil → Civil
unfolding days_in_month
next_day c =
    if ltb c.day (days_in_month c.year c.month)
    then record c { day = c.day + 1 }
    else if ltb c.month 12
    then record c { month = c.month + 1; day = 1 }
    else record { year = c.year + 1; month = 1; day = 1 }

unfoldable pub civil_of_day : ℕ → Civil
unfolding next_day
civil_of_day zero = record { year = 1970; month = 1; day = 1 }
civil_of_day (suc n) = next_day (civil_of_day n)

-- The other way, in closed form.
unfoldable pub days_before_year : ℕ → ℕ
days_before_year y = 365 * (y - 1970) + ((y - 1) / 4 + (y - 1) / 400 - (y - 1) / 100) - 477

unfoldable pub days_before_month : ℕ → ℕ → ℕ
unfolding is_leap
days_before_month y m =
    let l : ℕ = if is_leap y then 1 else 0 in
    if m == 1
    then 0
    else if m == 2
    then 31
    else if m == 3
    then 59 + l
    else if m == 4
    then 90 + l
    else if m == 5
    then 120 + l
    else if m == 6
    then 151 + l
    else if m == 7
    then 181 + l
    else if m == 8
    then 212 + l
    else if m == 9
    then 243 + l
    else if m == 10
    then 273 + l
    else if m == 11
    then 304 + l
    else 334 + l

unfoldable pub day_of_civil : Civil → ℕ
unfolding days_before_year days_before_month
day_of_civil c = days_before_year c.year + days_before_month c.year c.month + (c.day - 1)

-- The day in Korea at an instant, and the minute of that day.
abbrev pub kst_day : ℕ → ℕ
kst_day now = (now + kst_offset) / ms_per_day

abbrev pub kst_minute : ℕ → ℕ
kst_minute now = (now + kst_offset) % ms_per_day / 60000

-- Two decimal digits before a text, as code units.
unfoldable pub pad2 : ℕ → Text → Text
pad2 n rest = (48 + n / 10) ∷ (48 + n % 10) ∷ rest

-- YYYY-MM-DD
unfoldable pub civil_text : Civil → Text
unfolding pad2
civil_text c =
    pad2 (c.year / 100) (pad2 (c.year % 100) (b'-' ∷ pad2 c.month (b'-' ∷ pad2 c.day [])))

unfoldable pub day_text : ℕ → Text
unfolding civil_of_day civil_text
day_text n = civil_text (civil_of_day n)

-- `toKstDate`
unfoldable pub to_kst_date : ℕ → Text
unfolding day_text
to_kst_date now = day_text (kst_day now)

unfoldable pub is_digit : ℕ → Bool
is_digit c = leb 48 c && leb c 57

unfoldable pub value2 : ℕ → ℕ → ℕ
value2 a b = (a - 48) * 10 + (b - 48)

-- The fields of a date text as `Date` reads them: a month from 1 to 12 and a day from 1 to 31, which
-- runs on into the next month where the month is shorter.
unfoldable pub day_of_fields : ℕ → ℕ → ℕ → Option ℕ
unfolding days_before_year days_before_month
day_of_fields y m d =
    if leb 1970 y && (leb 1 m && leb m 12) && (leb 1 d && leb d 31)
    then some (days_before_year y + days_before_month y m + (d - 1))
    else none

unfoldable pub parse_date : Text → Option ℕ
unfolding day_of_fields is_digit value2
parse_date (a ∷ b ∷ c ∷ d ∷ dash ∷ e ∷ f ∷ hyphen ∷ g ∷ h ∷ []) =
    if (is_digit a && is_digit b && is_digit c && is_digit d && dash == b'-')
      && (is_digit e && is_digit f && hyphen == b'-')
      && (is_digit g && is_digit h)
    then day_of_fields (value2 a b * 100 + value2 c d) (value2 e f) (value2 g h)
    else none
parse_date _ = none

-- `setUTCDate(getUTCDate() + days)`
abbrev pub shift_days : ℕ → ℤ → ℕ
shift_days instant (pos k) = instant + k * ms_per_day
shift_days instant (negsuc k) = instant - suc k * ms_per_day

-- `addDays`; `none` is the RangeError that formatting an invalid date throws.
unfoldable pub add_days : Text → ℤ → Option Text
unfolding parse_date to_kst_date
add_days date_text days = elim (parse_date date_text) [
  | none ↦ none
  | some day ↦ some (to_kst_date (shift_days (day * ms_per_day - kst_offset) days))
]

-- `getKstDayOfWeek`: the weekday in UTC of noon in Korea, from 0 for Sunday; `none` is NaN.
unfoldable pub kst_day_of_week : Text → Option ℕ
unfolding parse_date
kst_day_of_week date_text = elim (parse_date date_text) [
  | none ↦ none
  | some day ↦ some (((day * ms_per_day + 43200000 - kst_offset) / ms_per_day + 4) % 7)
]

abbrev pub weekday : ℕ → ℕ
weekday day = (day + 4) % 7
