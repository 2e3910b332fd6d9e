-- ===== src/ClosedPeriods/Selection.antt =====
-- What is selected, and in which order.
use info_room_reservation_si.Prelude.{
  count-sort_by, sort_by-IsOrderedBy, IsOrderedBy, ℕ, ◌<◌, ◌≡◌, refl, ap, ◌∙◌, Bool, true, false,
  not, ◌&&◌, ◌||◌, ◌==◌, List, [], ◌∷◌, Text, filter, count, ltb, leb, arith,
}
use info_room_reservation_si.Calendar.{day_limit, kst_day, kst_minute, to_kst_date}
use info_room_reservation_si.Calendar.Format.{text_lt-day_text}
use info_room_reservation_si.PeriodSettings.{PeriodSetting}
use info_room_reservation_si.PeriodWindow.{is_period_window_closed}
use info_room_reservation_si.PeriodWindow.Laws.{IsSetting, get_period_window_state_lem}
use info_room_reservation_si.ClosedPeriods.{
  ClosedPeriodDeliverySnapshot, is_closed_period_for_notification, has_active_delivery, Ordering,
  less, greater, equal, comes_after, select_closed_period_notification_candidates,
}

-- A period with the text of a day and HH:MM times is closed for its list when its day is over, or on
-- its day when it has opened and its closing minute is over; never before its day.
pub is_closed_period_for_notification_lem :
    (s : PeriodSetting) (n o c now : ℕ)
    → IsSetting (record { close_time = s.close_time; date = s.date; open_time = s.open_time }) n o c
    → kst_day now < day_limit
    → is_closed_period_for_notification s now ≡ (
        ltb n (kst_day now)
        || (n == kst_day now && (leb o (kst_minute now) && ltb c (kst_minute now))))
unfolding is_closed_period_for_notification is_period_window_closed to_kst_date
is_closed_period_for_notification_lem s n o c now v h =
    rw
      (
        get_period_window_state_lem
            (record { close_time = s.close_time; date = s.date; open_time = s.open_time }) n o c now
            v h,
        v.date,
        text_lt-day_text (kst_day now) n h v.in_range,
      )
      (ground arith)

-- What a setting must be to be selected.
unfoldable pub is_due : List ClosedPeriodDeliverySnapshot → ℕ → PeriodSetting → Bool
is_due deliveries now s =
    s.enabled
    && (is_closed_period_for_notification s now && not (has_active_delivery s deliveries now))

filter-filter-filter :
    (p q r : PeriodSetting → Bool) (settings : List PeriodSetting)
    → filter r (filter q (filter p settings)) ≡ filter (λ s. p s && (q s && r s)) settings
filter-filter-filter p q r [] = refl
filter-filter-filter p q r (s ∷ settings) = ground (arith, filter-filter-filter p q r settings)

module _ (locale_compare : Text → Text → Ordering) where
  -- The selection has every enabled and closed setting without a blocking delivery exactly as often
  -- as the settings have it, and no other: so each test holds of as many.
  pub count-select_closed_period_notification_candidates :
      (t : PeriodSetting → Bool) (deliveries : List ClosedPeriodDeliverySnapshot) (now : ℕ)
      (settings : List PeriodSetting)
      → count t
          (select_closed_period_notification_candidates locale_compare deliveries now settings)
        ≡ count t (filter (is_due deliveries now) settings)
  unfolding select_closed_period_notification_candidates is_due
  count-select_closed_period_notification_candidates t deliveries now settings =
      let closed = λ (s : PeriodSetting). is_closed_period_for_notification s now in
      let free = λ (s : PeriodSetting). not (has_active_delivery s deliveries now) in
      count-sort_by (comes_after locale_compare) t
        (filter free (filter closed (filter (λ s. s.enabled) settings)))
      ∙ ap (count t) (filter-filter-filter (λ s. s.enabled) closed free settings)

  module _ (flips : (a b : Text) → locale_compare a b ≡ greater → locale_compare b a ≡ less)
      (agrees : (a b : Text) → locale_compare a b ≡ equal → locale_compare b a ≡ equal) where
    comes_after_asymm :
        (s x : PeriodSetting)
        → comes_after locale_compare s x ≡ true
        → comes_after locale_compare x s ≡ false
    unfolding comes_after
    comes_after_asymm s x h = ground (arith, flips s.date x.date, agrees s.date x.date)

    -- The candidates come in the order of their dates and, on one date, of their periods, if the
    -- comparison of dates changes its sign when its arguments change places.
    pub select_closed_period_notification_candidates-IsOrderedBy :
        (deliveries : List ClosedPeriodDeliverySnapshot) (now : ℕ) (settings : List PeriodSetting)
        → IsOrderedBy
            (comes_after locale_compare)
            (select_closed_period_notification_candidates locale_compare deliveries now settings)
    unfolding select_closed_period_notification_candidates
    select_closed_period_notification_candidates-IsOrderedBy deliveries now settings =
        sort_by-IsOrderedBy (comes_after locale_compare) comes_after_asymm (
          filter (λ s. not (has_active_delivery s deliveries now))
            (filter (λ s. is_closed_period_for_notification s now)
              (filter (λ s. s.enabled) settings)))
