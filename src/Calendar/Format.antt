-- ===== src/Calendar/Format.antt =====
-- Date texts: their order, and reading them back.
use info_room_reservation_si.Prelude.{
  ℕ, suc, ◌+◌, ◌-◌, ◌*◌, ◌/◌, ◌%◌, ◌≤◌, ◌<◌, ◌≡◌, ◌∙◌, ap, true, false, [], some, arith, ltb, ◌==◌,
  if◌then◌else◌, Text, text_lt, text_lt-cons, text_lt_irrefl, ℤ, pos, negsuc, shift,
}
use info_room_reservation_si.Calendar.{
  Civil, civil_of_day, civil_text, day_text, day_limit, pad2, parse_date, is_digit, value2,
  day_of_fields, day_of_civil, days_in_month, add_days, kst_day_of_week, to_kst_date, kst_day,
  weekday, shift_days, ms_per_day, kst_offset,
}
use info_room_reservation_si.Calendar.Days.{
  IsCivil, civil_lt, civil_of_day-IsCivil, civil_lt-civil_of_day, year-civil_of_day,
  day_of_civil-civil_of_day,
}

day_le-31 : (c : Civil) → IsCivil c → c.day ≤ 31
unfolding days_in_month
day_le-31 c v = ground arith

text_lt-pad2 :
    (a b : ℕ) (s t : Text)
    → a < 100
    → b < 100
    → text_lt (pad2 a s) (pad2 b t)
      ≡ (if ltb a b then true else if a == b then text_lt s t else false)
unfolding pad2 text_lt
text_lt-pad2 a b s t h k = ground arith

text_lt-civil_text :
    (a b : Civil)
    → IsCivil a
    → IsCivil b
    → a.year < 10000
    → b.year < 10000
    → text_lt (civil_text a) (civil_text b) ≡ civil_lt a b
text_lt-civil_text a b v w h k =
    unfold civil_text in
    rw
      (
        text_lt-pad2 (a.year / 100) (b.year / 100) _ _ (omega arith) (omega arith),
        text_lt-pad2 (a.year % 100) (b.year % 100) _ _ (omega arith) (omega arith),
        text_lt-cons b'-',
        text_lt-pad2 a.month b.month _ _ (omega arith) (omega arith),
        text_lt-cons b'-',
        text_lt-pad2 a.day b.day _ _ (omega (arith, day_le-31 a v)) (omega (arith, day_le-31 b w)),
      )
      (ground (arith, text_lt_irrefl []))

-- Before the year 10000, `<` on date texts is the order of the days.
pub text_lt-day_text :
    (m n : ℕ) → m < day_limit → n < day_limit → text_lt (day_text m) (day_text n) ≡ ltb m n
text_lt-day_text m n h k =
    let order : text_lt (civil_text (civil_of_day m)) (civil_text (civil_of_day n)) ≡ ltb m n =
      text_lt-civil_text (civil_of_day m) (civil_of_day n) (civil_of_day-IsCivil m)
        (civil_of_day-IsCivil n) (year-civil_of_day m h) (year-civil_of_day n k)
      ∙ civil_lt-civil_of_day m n in
    unfold day_text in order

read_pad2 :
    (n : ℕ)
    → n < 100
    → (is_digit (48 + n / 10) ≡ true)
      × (is_digit (48 + n % 10) ≡ true)
      × (value2 (48 + n / 10) (48 + n % 10) ≡ n)
unfolding is_digit value2
read_pad2 n h = ground arith

day_of_fields-civil :
    (c : Civil) → IsCivil c → day_of_fields c.year c.month c.day ≡ some (day_of_civil c)
unfolding day_of_fields day_of_civil
day_of_fields-civil c v = ground (arith, day_le-31 c v)

parse_date-civil_text :
    (c : Civil) → IsCivil c → c.year < 10000 → parse_date (civil_text c) ≡ some (day_of_civil c)
unfolding parse_date civil_text
parse_date-civil_text c v h =
    let (y1, y2, high) = read_pad2 (c.year / 100) (omega arith) in
    let (y3, y4, low) = read_pad2 (c.year % 100) (omega arith) in
    let (m1, m2, month) = read_pad2 c.month (omega arith) in
    let (d1, d2, day) = read_pad2 c.day (omega (arith, day_le-31 c v)) in
    let year : c.year / 100 * 100 + c.year % 100 ≡ c.year = omega arith in
    rw (y1, y2, high, y3, y4, low, m1, m2, month, d1, d2, day, year) (day_of_fields-civil c v)

-- The text of a day before the year 10000 reads back as that day.
pub parse_date-day_text : (n : ℕ) → n < day_limit → parse_date (day_text n) ≡ some n
parse_date-day_text n h =
    let parsed : parse_date (civil_text (civil_of_day n)) ≡ some n =
      parse_date-civil_text (civil_of_day n) (civil_of_day-IsCivil n) (year-civil_of_day n h)
      ∙ ap some (day_of_civil-civil_of_day n) in
    unfold day_text in parsed

-- The weekday of the text of a day before the year 10000 is that of the day.
pub kst_day_of_week-day_text :
    (n : ℕ) → n < day_limit → kst_day_of_week (day_text n) ≡ some (weekday n)
unfolding kst_day_of_week
kst_day_of_week-day_text n h = rw (parse_date-day_text n h, kst_day_of_week) (ap some (omega arith))

-- An offset that does not lead to before 1970.
abbrev pub Reaches : ℕ → ℤ → Type 0
Reaches n (pos k) = Unit {0}
Reaches n (negsuc k) = suc k ≤ n

kst_day-shift_days :
    (n : ℕ) (d : ℤ) → Reaches n d → kst_day (shift_days (n * ms_per_day - kst_offset) d) ≡ shift n d
kst_day-shift_days n (pos k) r = omega arith
kst_day-shift_days n (negsuc k) r = omega arith

-- `addDays` on the text of a day before the year 10000 gives the text of the day that many days
-- on, if the offset does not lead to before 1970.
pub add_days-day_text :
    (n : ℕ) (d : ℤ)
    → n < day_limit
    → Reaches n d
    → add_days (day_text n) d ≡ some (day_text (shift n d))
unfolding add_days to_kst_date
add_days-day_text n d h r =
    rw (parse_date-day_text n h, add_days)
      (ap (λ (k : ℕ). some (day_text k)) (kst_day-shift_days n d r))
