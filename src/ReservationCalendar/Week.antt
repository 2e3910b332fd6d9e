-- ===== src/ReservationCalendar/Week.antt =====
-- The calendar agrees with the booking rule of the server.
use info_room_reservation_si.Prelude.{
  ℕ, ◌+◌, ◌≤◌, ◌<◌, ◌≡◌, refl, some, [], ◌∷◌, Text, ltb, ◌==◌, pos, arith, map,
}
use info_room_reservation_si.Calendar.{day_text, day_limit, weekday, kst_day}
use info_room_reservation_si.Calendar.Format.{
  kst_day_of_week-day_text, add_days-day_text, text_lt-day_text,
}
use info_room_reservation_si.AdvancePolicy.{
  AdvanceReservationPolicy, available, unavailable, policy_today, get_advance_reservation_policy,
  is_selectable_advance_date, is_reservable_date, ◌>>=◌,
}
use info_room_reservation_si.AdvancePolicy.Dates.{
  policy_on, monday, add_days-monday, text_eq-day_text, is_bookable_on, is_selectable-policy_on,
  get_advance_reservation_policy_lem,
}
use info_room_reservation_si.ReservationCalendar.{
  ReservationCalendarDay, weekday_label, weekday_label_at, is_advance_reservation_date,
  is_selectable_reservation_calendar_date, calendar_day, week_days, build_reservation_calendar_days,
}

is_advance_reservation_date_lem :
    (date : Text) (policy : AdvanceReservationPolicy)
    → is_advance_reservation_date date policy ≡ is_selectable_advance_date date policy
unfolding is_advance_reservation_date is_selectable_advance_date
is_advance_reservation_date_lem date (available max_date min_date today) = refl
is_advance_reservation_date_lem date (unavailable today) = refl

-- A date is selectable in the calendar of an instant's policy exactly when the server accepts it
-- for booking at that instant.
pub is_selectable_reservation_calendar_date-is_reservable_date :
    (date : Text) (now : ℕ) (policy : AdvanceReservationPolicy)
    → get_advance_reservation_policy now ≡ some policy
    → is_reservable_date date now ≡ some (is_selectable_reservation_calendar_date date policy)
unfolding is_reservable_date is_selectable_reservation_calendar_date
is_selectable_reservation_calendar_date-is_reservable_date date now policy e =
    rw (e, is_advance_reservation_date_lem date policy)

-- What the calendar shows of the day `n` on the day `d`.
abbrev pub shown : ℕ → ℕ → ReservationCalendarDay
shown d n = record {
  date = day_text n;
  day_label = weekday_label_at (weekday n);
  is_advance_window = is_advance_reservation_date (day_text n) (policy_on d);
  is_past = ltb n d;
  is_today = n == d;
  selectable = is_bookable_on d n;
}

policy_today-policy_on : (d : ℕ) → policy_today (policy_on d) ≡ day_text d
unfolding policy_on
policy_today-policy_on d = ground arith

weekday_label-day_text :
    (n : ℕ) → n < day_limit → weekday_label (day_text n) ≡ weekday_label_at (weekday n)
unfolding weekday_label
weekday_label-day_text n h = rw (kst_day_of_week-day_text n h, weekday_label)

is_selectable_on :
    (d n : ℕ)
    → n < day_limit
    → d + 5 < day_limit
    → is_selectable_reservation_calendar_date (day_text n) (policy_on d) ≡ is_bookable_on d n
unfolding is_selectable_reservation_calendar_date
is_selectable_on d n h k =
    rw (is_advance_reservation_date_lem (day_text n) (policy_on d))
      (is_selectable-policy_on d n h k)

calendar_day-day_text :
    (d n : ℕ)
    → n < day_limit
    → d + 5 < day_limit
    → calendar_day (policy_on d) (day_text n) ≡ shown d n
calendar_day-day_text d n h k =
    unfold calendar_day in
    rw (
      weekday_label-day_text n h,
      is_selectable_on d n h k,
      policy_today-policy_on d,
      text_eq-day_text n d h (omega arith),
      text_lt-day_text n d h (omega arith),
    )

week_days-day_text :
    (d m : ℕ)
    → d + 5 < day_limit
    → m ≤ d
    → week_days (policy_on d) (day_text m)
      ≡ some (map (λ i. shown d (m + i)) (0 ∷ 1 ∷ 2 ∷ 3 ∷ 4 ∷ []))
week_days-day_text d m k l =
    let step = λ (i : ℕ). add_days-day_text m (pos i) (omega arith) tt in
    let day = λ (i : ℕ) (b : i < 5). calendar_day-day_text d (m + i) (omega arith) k in
    unfold week_days in
    rw (step 0, step 1, step 2, step 3, step 4)
      (rw (
        day 0 (omega arith),
        day 1 (omega arith),
        day 2 (omega arith),
        day 3 (omega arith),
        day 4 (omega arith),
      ))

-- The same for the policy of the day `d`.
pub build_reservation_calendar_days_lem :
    (d : ℕ)
    → 6 ≤ d
    → d + 5 < day_limit
    → build_reservation_calendar_days (policy_on d)
      ≡ some (map (λ i. shown d (monday d + i)) (0 ∷ 1 ∷ 2 ∷ 3 ∷ 4 ∷ []))
build_reservation_calendar_days_lem d h k =
    unfold build_reservation_calendar_days in
    rw
      (
        policy_today-policy_on d,
        kst_day_of_week-day_text d (omega arith),
        add_days-monday d h (omega arith),
      )
      (week_days-day_text d (monday d) k (omega arith))

-- From the policy of an instant, on or after 1970-01-07 and with five days left before the year
-- 10000, the calendar shows the Monday to Friday of this week, each with its weekday's label and
-- whether it is past, today or ahead, and selectable exactly if it can be booked.
pub build_reservation_calendar_days-get_advance_reservation_policy :
    (now : ℕ)
    → 6 ≤ kst_day now
    → kst_day now + 5 < day_limit
    → (get_advance_reservation_policy now >>= build_reservation_calendar_days)
      ≡ some (map (λ i. shown (kst_day now) (monday (kst_day now) + i)) (0 ∷ 1 ∷ 2 ∷ 3 ∷ 4 ∷ []))
build_reservation_calendar_days-get_advance_reservation_policy now h k =
    rw (get_advance_reservation_policy_lem now (omega arith))
      (build_reservation_calendar_days_lem (kst_day now) h k)
