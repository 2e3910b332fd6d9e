-- ===== src/AdvancePolicy/Dates.antt =====
-- The booking dates in terms of days.
use info_room_reservation_si.Prelude.{
  ℕ, zero, suc, ◌%◌, ◌+◌, ◌-◌, ◌≤◌, ◌<◌, ◌≡◌, ◌∙◌, ap, Bool, true, false, ◌||◌, ◌&&◌, some, text_eq,
  text_lt, ltb, leb, ◌==◌, if◌then◌else◌, pos, negsuc, arith, text_eq_refl, text_eq_sound,
  text_lt_irrefl, shift, Bool-ext, ==_iff,
}
use info_room_reservation_si.Calendar.{add_days, to_kst_date, day_text, day_limit, kst_day, weekday}
use info_room_reservation_si.Calendar.Format.{
  Reaches, text_lt-day_text, kst_day_of_week-day_text, add_days-day_text,
}
use info_room_reservation_si.AdvancePolicy.{
  AdvanceReservationPolicy, available, unavailable, policy_today, get_advance_reservation_policy,
  is_selectable_advance_date, is_reservable_date, monday_offset, is_allowed_period_query_week_start,
}

-- The policy on the day `d`.
unfoldable pub policy_on : ℕ → AdvanceReservationPolicy
policy_on d =
    if ltb (weekday d) 1 || leb 5 (weekday d)
    then unavailable (day_text d)
    else available (day_text (d + (5 - weekday d))) (day_text (d + 1)) (day_text d)

pub get_advance_reservation_policy_lem :
    (now : ℕ)
    → kst_day now < day_limit
    → get_advance_reservation_policy now ≡ some (policy_on (kst_day now))
get_advance_reservation_policy_lem now h =
    let d : ℕ = kst_day now in
    unfold get_advance_reservation_policy to_kst_date policy_on in
    rw
      (
        kst_day_of_week-day_text (kst_day now) h,
        add_days-day_text (kst_day now) (pos (5 - weekday (kst_day now))) h tt,
        add_days-day_text (kst_day now) (pos 1) h tt,
      )
      (ground arith)

day_text-injective : (m n : ℕ) → m < day_limit → n < day_limit → day_text m ≡ day_text n → m ≡ n
day_text-injective m n h k e =
    let same : text_lt (day_text m) (day_text n) ≡ false = rw e (text_lt_irrefl (day_text n)) in
    let back : text_lt (day_text n) (day_text m) ≡ false = rw e (text_lt_irrefl (day_text n)) in
    ground (arith, text_lt-day_text m n h k, text_lt-day_text n m k h)

pub text_eq-day_text :
    (m n : ℕ) → m < day_limit → n < day_limit → text_eq (day_text m) (day_text n) ≡ (m == n)
text_eq-day_text m n h k =
    Bool-ext _ _ (λ e. (==_iff m n).1 (day_text-injective m n h k (text_eq_sound _ _ e)))
      (λ e. rw ((==_iff m n).0 e) (text_eq_refl _))

abbrev pub is_bookable_on : ℕ → ℕ → Bool
is_bookable_on d n =
    n == d || (leb 1 (weekday d) && ltb (weekday d) 5 && ltb d n && leb n (d + (5 - weekday d)))

pub is_selectable-policy_on :
    (d n : ℕ)
    → n < day_limit
    → d + 5 < day_limit
    → (if text_eq (day_text n) (policy_today (policy_on d))
        then true
        else is_selectable_advance_date (day_text n) (policy_on d))
      ≡ is_bookable_on d n
unfolding is_selectable_advance_date policy_on
is_selectable-policy_on d n h k = ground (
  arith,
  text_eq-day_text n d h,
  text_lt-day_text n (d + 1) h,
  text_lt-day_text (d + (5 - weekday d)) n,
)

-- A day can be booked exactly when it is today, or when today is Monday to Thursday and it is a
-- later day up to this week's Friday (the day, and the one five days after today, before the year
-- 10000).
pub is_reservable_date_lem :
    (n now : ℕ)
    → n < day_limit
    → kst_day now + 5 < day_limit
    → is_reservable_date (day_text n) now ≡ some (is_bookable_on (kst_day now) n)
is_reservable_date_lem n now h k =
    unfold is_reservable_date in
    rw (get_advance_reservation_policy_lem now (omega arith))
      (ap some (is_selectable-policy_on (kst_day now) n h k))

monday_offset_later : (k : ℕ) → monday_offset (suc (suc k)) ≡ negsuc k
monday_offset_later k = ground arith

-- The Monday of the week of the day `d`.
abbrev pub monday : ℕ → ℕ
monday d = d - (weekday d + 6) % 7

monday_offset-Reaches :
    (d w : ℕ)
    → 6 ≤ d
    → w < 7
    → Reaches d (monday_offset w) × (shift d (monday_offset w) ≡ d - (w + 6) % 7)
monday_offset-Reaches d zero h l = (omega arith, omega arith)
monday_offset-Reaches d (suc zero) h l = (tt, omega arith)
monday_offset-Reaches d (suc (suc k)) h l = rw (monday_offset_later k) (omega arith, omega arith)

-- Going back by a weekday's offset leads to the Monday of that week.
pub add_days-monday :
    (d : ℕ)
    → 6 ≤ d
    → d < day_limit
    → add_days (day_text d) (monday_offset (weekday d)) ≡ some (day_text (monday d))
add_days-monday d h l =
    let (reaches, at) = monday_offset-Reaches d (weekday d) h (omega arith) in
    add_days-day_text d (monday_offset (weekday d)) l reaches ∙ ap (λ (k : ℕ). some (day_text k)) at

-- A day is an allowed week start exactly when it is the Monday of this week (today on or after
-- 1970-01-07, both days before the year 10000).
pub is_allowed_period_query_week_start_lem :
    (n now : ℕ)
    → n < day_limit
    → 6 ≤ kst_day now
    → kst_day now < day_limit
    → is_allowed_period_query_week_start (day_text n) now ≡ some (n == monday (kst_day now))
is_allowed_period_query_week_start_lem n now h l k =
    unfold is_allowed_period_query_week_start to_kst_date in
    rw (kst_day_of_week-day_text (kst_day now) k, add_days-monday (kst_day now) l k)
      (ap some (text_eq-day_text n (monday (kst_day now)) h (omega arith)))
