-- ===== src/Calendar/Days.antt =====
-- The calendar behind the dates: `next_day` against the closed form, and the order of days.
use info_room_reservation_si.Prelude.{
  ℕ, zero, suc, ◌+◌, ◌-◌, ◌*◌, ◌≤◌, ◌<◌, ◌≡◌, refl, sym, ◌∙◌, ap, inl, inr, Bool, true, false,
  arith, ltb, ◌==◌, Bool-cases, lt→ltb, if◌then◌else◌,
}
use native.Mathlib.Decide.{dec_lt}
use info_room_reservation_si.Calendar.{
  Civil, is_leap, days_in_month, days_before_month, days_before_year, next_day, civil_of_day,
  day_of_civil, day_limit,
}

pub record IsCivil (c : Civil) : Type 0 where
  pub from_1970 : 1970 ≤ c.year
  pub month_pos : 1 ≤ c.month
  pub month_le : c.month ≤ 12
  pub day_pos : 1 ≤ c.day
  pub day_le : c.day ≤ days_in_month c.year c.month

next_day-IsCivil : (c : Civil) → IsCivil c → IsCivil (next_day c)
unfolding next_day
next_day-IsCivil c v = ground arith

pub civil_of_day-IsCivil : (n : ℕ) → IsCivil (civil_of_day n)
unfolding civil_of_day
civil_of_day-IsCivil zero = omega arith
civil_of_day-IsCivil (suc n) = next_day-IsCivil (civil_of_day n) (civil_of_day-IsCivil n)

-- Dates in their order: by year, month and day.
abbrev pub civil_lt : Civil → Civil → Bool
civil_lt a b =
    if ltb a.year b.year
    then true
    else if a.year == b.year
    then (if ltb a.month b.month
        then true
        else if a.month == b.month
        then ltb a.day b.day
        else false)
    else false

civil_lt-next_day : (c : Civil) → civil_lt c (next_day c) ≡ true
unfolding next_day
civil_lt-next_day c = ground arith

civil_lt_trans : (a b c : Civil) → civil_lt a b ≡ true → civil_lt b c ≡ true → civil_lt a c ≡ true
civil_lt_trans a b c h k = ground arith

civil_lt_irrefl : (a : Civil) → civil_lt a a ≡ false
civil_lt_irrefl a = ground arith

civil_lt_asymm : (a b : Civil) → civil_lt a b ≡ true → civil_lt b a ≡ false
civil_lt_asymm a b h = ground arith

days_before_year-suc :
    (y : ℕ) → 1970 ≤ y → days_before_year (y + 1) ≡ days_before_year y + days_before_month y 12 + 31
unfolding days_before_year days_before_month is_leap
days_before_year-suc y h = ground arith

days_before_month-suc :
    (y m : ℕ)
    → 1 ≤ m
    → m < 12
    → days_before_month y (m + 1) ≡ days_before_month y m + days_in_month y m
unfolding days_before_month days_in_month
days_before_month-suc y m h k = ground arith

december : (y : ℕ) → days_in_month y 12 ≡ 31
unfolding days_in_month
december y = refl

january : (y : ℕ) → days_before_month y 1 ≡ 0
unfolding days_before_month
january y = refl

abbrev OneMore : Civil → Civil → Type 0
OneMore c c' =
    days_before_year c'.year + days_before_month c'.year c'.month + (c'.day - 1)
    ≡ days_before_year c.year + days_before_month c.year c.month + (c.day - 1) + 1

new_year :
    (y m d : ℕ)
    → 1970 ≤ y
    → m ≡ 12
    → d ≡ days_in_month y m
    → 1 ≤ d
    → OneMore
        (record { year = y; month = m; day = d })
        (record { year = y + 1; month = 1; day = 1 })
new_year y m d h e f p =
    rw e
      (omega (arith, days_before_year-suc y h, december y, january (y + 1), ap (days_in_month y) e))

next_day-OneMore : (c : Civil) → IsCivil c → OneMore c (next_day c)
unfolding next_day
next_day-OneMore c v = elim (Bool-cases (ltb c.day (days_in_month c.year c.month))) [
  | inl inside ↦ rw inside (ground arith)
  | inr last ↦ elim (Bool-cases (ltb c.month 12)) [
    | inl more ↦ rw (last, more) (ground (arith, days_before_month-suc c.year c.month v.month_pos))
    | inr no_more ↦
        rw (last, no_more)
          (new_year c.year c.month c.day v.from_1970 (ground arith) (ground arith) v.day_pos)
  ]
]

day_of_civil-next_day : (c : Civil) → IsCivil c → day_of_civil (next_day c) ≡ day_of_civil c + 1
day_of_civil-next_day c v = unfold day_of_civil in next_day-OneMore c v

-- The closed form of a date, a count of years, months and days, inverts the walk from 1970.
pub day_of_civil-civil_of_day : (n : ℕ) → day_of_civil (civil_of_day n) ≡ n
unfolding civil_of_day
day_of_civil-civil_of_day zero = unfold day_of_civil in omega arith
day_of_civil-civil_of_day (suc n) = omega (
  arith,
  day_of_civil-next_day (civil_of_day n) (civil_of_day-IsCivil n),
  day_of_civil-civil_of_day n,
)

civil_lt_of_lt : (m n : ℕ) → m < n → civil_lt (civil_of_day m) (civil_of_day n) ≡ true
unfolding civil_of_day
civil_lt_of_lt m zero h = absurd (omega arith)
civil_lt_of_lt m (suc n) h = elim (dec_lt m n) [
  | yes p ↦
      civil_lt_trans (civil_of_day m) (civil_of_day n) (next_day (civil_of_day n))
        (civil_lt_of_lt m n p) (civil_lt-next_day (civil_of_day n))
  | no p ↦ let e : m ≡ n = omega arith in rw e (civil_lt-next_day (civil_of_day n))
]

-- Later days have later dates, and the other way round.
pub civil_lt-civil_of_day : (m n : ℕ) → civil_lt (civil_of_day m) (civil_of_day n) ≡ ltb m n
civil_lt-civil_of_day m n = elim (dec_lt m n) [
  | yes p ↦ rw (civil_lt_of_lt m n p) (sym (lt→ltb m n p))
  | no p ↦ elim (dec_lt n m) [
    | yes q ↦
        rw (civil_lt_asymm (civil_of_day n) (civil_of_day m) (civil_lt_of_lt n m q)) (ground arith)
    | no q ↦ let e : m ≡ n = omega arith in rw e (civil_lt_irrefl (civil_of_day n) ∙ ground arith)
  ]
]

days_before_year-ge : (y : ℕ) → 365 * (y - 1970) ≤ days_before_year y
unfolding days_before_year
days_before_year-ge y = omega arith

pub year-civil_of_day : (n : ℕ) → n < day_limit → (civil_of_day n).year < 10000
year-civil_of_day n h =
    let e : day_of_civil (civil_of_day n) ≡ n = day_of_civil-civil_of_day n in
    unfold day_of_civil in omega (arith, e, days_before_year-ge (civil_of_day n).year)
