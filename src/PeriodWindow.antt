-- ===== src/PeriodWindow.antt =====
-- The booking window of a period: src/lib/period-window.ts.
pub mod Laws
use info_room_reservation_si.Prelude.{
  ℕ, ◌+◌, ◌-◌, ◌*◌, ◌/◌, ◌%◌, Bool, true, false, Option, none, some, [], ◌∷◌, Text, text_lt, ltb,
  ◌==◌, if◌then◌else◌,
}
use info_room_reservation_si.Calendar.{is_digit, kst_minute, pad2, to_kst_date}

-- `open_now` is the state "open".
pub data PeriodWindowState : Type 0 where
  closed not_open_yet open_now : PeriodWindowState

pub record PeriodWindowSetting : Type 0 where
  pub close_time : Text
  pub date : Text
  pub open_time : Text

-- HH:MM
unfoldable pub time_text : ℕ → Text
unfolding pad2
time_text minutes = pad2 (minutes / 60) (b':' ∷ pad2 (minutes % 60) [])

-- The first two parts of `split(":")`; a missing second part is the empty text.
unfoldable pub first_part : Text → Text
first_part [] = []
first_part (c ∷ s) = if c == b':' then [] else c ∷ first_part s

unfoldable pub rest_part : Text → Text
rest_part [] = []
rest_part (c ∷ s) = if c == b':' then s else rest_part s

unfoldable pub parse_digits : ℕ → Text → ℕ
unfolding is_digit
parse_digits acc [] = acc
parse_digits acc (c ∷ s) =
    let more = parse_digits (acc * 10 + (c - 48)) s in if is_digit c then more else acc

-- `Number.parseInt(text, 10)` on a text with no sign and no leading space; `none` is NaN.
unfoldable pub parse_int : Text → Option ℕ
unfolding is_digit parse_digits
parse_int [] = none
parse_int (c ∷ s) = if is_digit c then some (parse_digits (c - 48) s) else none

abbrev pub add_minutes : Option ℕ → Option ℕ → Option ℕ
add_minutes none m = none
add_minutes (some h) none = none
add_minutes (some h) (some m) = some (h * 60 + m)

unfoldable pub to_minutes : Text → Option ℕ
unfolding first_part rest_part parse_int
to_minutes time =
    add_minutes (parse_int (first_part time)) (parse_int (first_part (rest_part time)))

-- `<` on numbers, false where one is NaN
unfoldable pub number_lt : Option ℕ → Option ℕ → Bool
number_lt none b = false
number_lt (some a) none = false
number_lt (some a) (some b) = ltb a b

unfoldable pub get_period_window_state : PeriodWindowSetting → ℕ → PeriodWindowState
unfolding number_lt
get_period_window_state setting now =
    let now_minutes = to_minutes (time_text (kst_minute now)) in
    if text_lt setting.date (to_kst_date now)
    then closed
    else if number_lt now_minutes (to_minutes setting.open_time)
    then not_open_yet
    else if number_lt (to_minutes setting.close_time) now_minutes
    then closed
    else open_now

abbrev pub is_closed : PeriodWindowState → Bool
is_closed closed = true
is_closed _ = false

unfoldable pub is_period_window_closed : PeriodWindowSetting → ℕ → Bool
is_period_window_closed setting now = is_closed (get_period_window_state setting now)
