-- ===== src/PeriodWindow/Laws.antt =====
-- The window of a well-formed setting in terms of days and minutes.
use info_room_reservation_si.Prelude.{
  ℕ, ◌+◌, ◌-◌, [], ◌∷◌, ◌*◌, ◌/◌, ◌%◌, ◌≤◌, ◌<◌, ◌≡◌, some, arith, ltb, if◌then◌else◌, ◌∙◌, ap,
}
use info_room_reservation_si.Calendar.{day_limit, day_text, kst_day, kst_minute, to_kst_date}
use info_room_reservation_si.Calendar.Format.{text_lt-day_text}
use info_room_reservation_si.PeriodWindow.{
  PeriodWindowState, closed, not_open_yet, open_now, PeriodWindowSetting, time_text, first_part,
  rest_part, parse_int, to_minutes, get_period_window_state,
}

abbrev IsDigit : ℕ → Type 0
IsDigit c = (48 ≤ c) × (c ≤ 57)

parse_int_two :
    (a b : ℕ) → IsDigit a → IsDigit b → parse_int (a ∷ b ∷ []) ≡ some ((a - 48) * 10 + (b - 48))
unfolding parse_int
parse_int_two a b p q = ground arith

first_part_two : (a b : ℕ) → IsDigit a → IsDigit b → first_part (a ∷ b ∷ []) ≡ a ∷ b ∷ []
unfolding first_part
first_part_two a b p q = ground arith

split_five :
    (a b c d : ℕ)
    → IsDigit a
    → IsDigit b
    → (first_part (a ∷ b ∷ b':' ∷ c ∷ d ∷ []) ≡ a ∷ b ∷ [])
      × (rest_part (a ∷ b ∷ b':' ∷ c ∷ d ∷ []) ≡ c ∷ d ∷ [])
unfolding first_part rest_part
split_five a b c d p q = ground arith

to_minutes_five :
    (a b c d : ℕ)
    → IsDigit a
    → IsDigit b
    → IsDigit c
    → IsDigit d
    → to_minutes (a ∷ b ∷ b':' ∷ c ∷ d ∷ [])
      ≡ some (((a - 48) * 10 + (b - 48)) * 60 + ((c - 48) * 10 + (d - 48)))
to_minutes_five a b c d p q r t =
    let (hours, minutes) = split_five a b c d p q in
    unfold to_minutes in
    rw (hours, minutes, first_part_two c d r t, parse_int_two a b p q, parse_int_two c d r t)

-- A time text reads back as its minutes.
pub to_minutes-time_text : (m : ℕ) → m < 1440 → to_minutes (time_text m) ≡ some m
unfolding time_text
to_minutes-time_text m h =
    to_minutes_five (48 + m / 60 / 10) (48 + m / 60 % 10) (48 + m % 60 / 10) (48 + m % 60 % 10)
      (omega arith) (omega arith) (omega arith) (omega arith)
    ∙ ap some (omega arith)

-- A setting for the day `n`, open from the minute `o` to the minute `c`.
pub record IsSetting (s : PeriodWindowSetting) (n o c : ℕ) : Type 0 where
  pub date : s.date ≡ day_text n
  pub opens : s.open_time ≡ time_text o
  pub closes : s.close_time ≡ time_text c
  pub in_range : n < day_limit
  pub open_range : o < 1440
  pub close_range : c < 1440

abbrev pub window_at : ℕ → ℕ → ℕ → ℕ → ℕ → PeriodWindowState
window_at n o c day minute =
    if ltb n day
    then closed
    else if ltb minute o
    then not_open_yet
    else if ltb c minute
    then closed
    else open_now

kst_minute-lt : (now : ℕ) → kst_minute now < 1440
kst_minute-lt now = omega arith

-- For a setting with the text of a day and with HH:MM times, the window has closed after its day;
-- otherwise the time of day decides: not open yet before the opening minute, closed after the
-- closing minute, open from one to the other, both included.
pub get_period_window_state_lem :
    (s : PeriodWindowSetting) (n o c now : ℕ)
    → IsSetting s n o c
    → kst_day now < day_limit
    → get_period_window_state s now ≡ window_at n o c (kst_day now) (kst_minute now)
unfolding get_period_window_state to_kst_date
get_period_window_state_lem s n o c now v h = rw (
  v.date,
  v.opens,
  v.closes,
  text_lt-day_text n (kst_day now) v.in_range h,
  to_minutes-time_text (kst_minute now) (kst_minute-lt now),
  to_minutes-time_text o v.open_range,
  to_minutes-time_text c v.close_range,
)
