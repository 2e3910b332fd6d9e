-- ===== src/AdvancePolicy.antt =====
-- Which dates can be booked ahead: src/lib/advance-reservation-policy.ts and
-- src/lib/period-query-policy.ts.
pub mod Dates
use info_room_reservation_si.Prelude.{
  ℕ, ◌-◌, Bool, true, false, ◌||◌, ◌&&◌, not, Option, none, some, Text, text_eq, text_lt, text_le,
  ltb, leb, ◌==◌, if◌then◌else◌, ℤ, pos, negsuc,
}
use info_room_reservation_si.Calendar.{add_days, kst_day_of_week, to_kst_date}

pub data AdvanceReservationPolicy : Type 0 where
  -- the last and the first date, and today
  available : Text → Text → Text → AdvanceReservationPolicy
  unavailable : Text → AdvanceReservationPolicy

abbrev pub policy_today : AdvanceReservationPolicy → Text
policy_today (available max_date min_date today) = today
policy_today (unavailable today) = today

infixl 5 ◌>>=◌
abbrev pub ◌>>=◌ {ℓ κ} : {A : Type ℓ} {B : Type κ} → Option A → (A → Option B) → Option B
none >>= f = none
some a >>= f = f a

-- `none` is the error that formatting an invalid date throws; it does not occur before the year
-- 10000.
unfoldable pub get_advance_reservation_policy : ℕ → Option AdvanceReservationPolicy
get_advance_reservation_policy now = do
  let today = to_kst_date now
  day_of_week ← kst_day_of_week today
  if ltb day_of_week 1 || leb 5 day_of_week then some (unavailable today) else do
    max_date ← add_days today (pos (5 - day_of_week))
    min_date ← add_days today (pos 1)
    some (available max_date min_date today)

unfoldable pub is_selectable_advance_date : Text → AdvanceReservationPolicy → Bool
is_selectable_advance_date date (unavailable today) = false
is_selectable_advance_date date (available max_date min_date today) =
    text_le min_date date && text_le date max_date

unfoldable pub is_reservable_date : Text → ℕ → Option Bool
is_reservable_date date now = do
  policy ← get_advance_reservation_policy now
  some (if text_eq date (policy_today policy) then true else is_selectable_advance_date date policy)

unfoldable pub is_allowed_period_query_date : Text → ℕ → Option Bool
is_allowed_period_query_date date now = is_reservable_date date now

-- The offset of a weekday's Monday.
abbrev pub monday_offset : ℕ → ℤ
monday_offset day_of_week =
    if day_of_week == 0
    then negsuc 5
    else if day_of_week == 1
    then pos 0
    else negsuc (day_of_week - 2)

unfoldable pub is_allowed_period_query_week_start : Text → ℕ → Option Bool
is_allowed_period_query_week_start week_start now = do
  let today = to_kst_date now
  day_of_week ← kst_day_of_week today
  monday ← add_days today (monday_offset day_of_week)
  some (text_eq week_start monday)
