-- ===== src/Reservations/Refusal.antt =====
-- Why a booking is refused.
use info_room_reservation_si.Prelude.{
  ◌≤◌, ◌≡◌, refl, ◌⊎◌, inl, inr, Bool-cases, Bool, true, false, Option, none, some, arith,
}
use info_room_reservation_si.PeriodWindow.{PeriodWindowState, open_now, get_period_window_state}
use info_room_reservation_si.PeriodSettings.{PeriodSetting}
use info_room_reservation_si.AdvancePolicy.{is_reservable_date}
use info_room_reservation_si.Reservations.{
  Reason, advance_unavailable, closed, disabled, duplicate, full, not_found, not_open_yet,
  restricted, shadow_banned, Reservation, error, Exception, identity_conflict, Try, ok, throw,
  ReservationStore, ReserveStudyPeriodInput, UserBookingState, is_restricted, is_shadow_banned,
}
use info_room_reservation_si.Reservations.Checks.{Check, pass, refuse, fail}
use info_room_reservation_si.Reservations.Service.{
  window_setting, check_period, attempt, settle, reserve_study_period,
}

-- A fallible lookup throws, finds nothing or finds a value.
lookup-cases :
    {A : Type 0} (t : Try (Option A))
    → ((e : Exception) × (t ≡ throw e)) ⊎ ((t ≡ ok none) ⊎ ((a : A) × (t ≡ ok (some a))))
lookup-cases (throw e) = inl (e, refl)
lookup-cases (ok none) = inr (inl refl)
lookup-cases (ok (some a)) = inr (inr (a, refl))

Check-cases :
    {A : Type 0} (c : Check A)
    → ((a : A) × (c ≡ pass a))
      ⊎ (((r : Reason) × (c ≡ refuse r)) ⊎ ((e : Exception) × (c ≡ fail e)))
Check-cases (pass a) = inl (a, refl)
Check-cases (refuse r) = inr (inl (r, refl))
Check-cases (fail e) = inr (inr (e, refl))

reservable-cases : (o : Option Bool) → (o ≡ none) ⊎ ((o ≡ some false) ⊎ (o ≡ some true))
reservable-cases none = inl refl
reservable-cases (some false) = inr (inl refl)
reservable-cases (some true) = inr (inr refl)

window-cases :
    (w : PeriodWindowState)
    → (w ≡ PeriodWindowState.closed) ⊎ ((w ≡ PeriodWindowState.not_open_yet) ⊎ (w ≡ open_now))
window-cases PeriodWindowState.closed = inl refl
window-cases PeriodWindowState.not_open_yet = inr (inl refl)
window-cases open_now = inr (inr refl)

module _ {S : Type 0} (store : ReservationStore S) where
  -- What holds of a refusal, by its cause.
  pub data Refuses (input : ReserveStudyPeriodInput) (s : S) (reason : Reason) : Type 0 where
    no_student :
        reason ≡ not_found
        → store.get_user_booking_state input.user_id s ≡ ok none
        → Refuses input s reason
    is_shadow :
        (user : UserBookingState)
        → reason ≡ shadow_banned
        → store.get_user_booking_state input.user_id s ≡ ok (some user)
        → is_shadow_banned user.booking_status ≡ true
        → Refuses input s reason
    is_barred :
        (user : UserBookingState)
        → reason ≡ restricted
        → store.get_user_booking_state input.user_id s ≡ ok (some user)
        → is_restricted user input.now ≡ true
        → Refuses input s reason
    out_of_time :
        reason ≡ advance_unavailable
        → is_reservable_date input.date input.now ≡ some false
        → Refuses input s reason
    no_setting :
        reason ≡ not_found
        → store.get_period_setting input.date input.study_period s ≡ ok none
        → Refuses input s reason
    is_disabled :
        (setting : PeriodSetting)
        → reason ≡ disabled
        → store.get_period_setting input.date input.study_period s ≡ ok (some setting)
        → setting.enabled ≡ false
        → Refuses input s reason
    too_late :
        (setting : PeriodSetting)
        → reason ≡ closed
        → store.get_period_setting input.date input.study_period s ≡ ok (some setting)
        → get_period_window_state (window_setting setting) input.now ≡ PeriodWindowState.closed
        → Refuses input s reason
    too_early :
        (setting : PeriodSetting)
        → reason ≡ not_open_yet
        → store.get_period_setting input.date input.study_period s ≡ ok (some setting)
        → get_period_window_state (window_setting setting) input.now
          ≡ PeriodWindowState.not_open_yet
        → Refuses input s reason
    is_booked :
        (r : Reservation)
        → reason ≡ duplicate
        → store.find_reservation input.date input.study_period input.user_id s ≡ ok (some r)
        → Refuses input s reason
    raced :
        reason ≡ duplicate → attempt store input s ≡ fail identity_conflict → Refuses input s reason
    no_room :
        (setting : PeriodSetting)
        → reason ≡ full
        → store.get_period_setting input.date input.study_period s ≡ ok (some setting)
        → setting.capacity ≤ store.count_confirmed_reservations input.date input.study_period s
        → Refuses input s reason

  module _ (input : ReserveStudyPeriodInput) (s : S) (reason : Reason) where
    room_Refuses :
        (setting : PeriodSetting)
        → store.get_period_setting input.date input.study_period s ≡ ok (some setting)
        → check_period store input s ≡ refuse reason
        → setting.enabled ≡ true
        → get_period_window_state (window_setting setting) input.now ≡ open_now
        → Refuses input s reason
    unfolding check_period
    room_Refuses setting e h on at =
        elim (lookup-cases (store.find_reservation input.date input.study_period input.user_id s)) [
          | inl (x, f) ↦ absurd (ground arith)
          | inr (inl f) ↦ no_room setting (ground arith) e (ground arith)
          | inr (inr (r, f)) ↦ is_booked r (ground arith) f
        ]

    check_period-Refuses : check_period store input s ≡ refuse reason → Refuses input s reason
    unfolding check_period
    check_period-Refuses h =
        elim (lookup-cases (store.get_period_setting input.date input.study_period s)) [
          | inl (x, e) ↦ absurd (ground arith)
          | inr (inl e) ↦ no_setting (ground arith) e
          | inr (inr (setting, e)) ↦ elim (Bool-cases setting.enabled) [
            | inr off ↦ is_disabled setting (ground arith) e off
            | inl on ↦
                elim (window-cases (get_period_window_state (window_setting setting) input.now)) [
                  | inl w ↦ too_late setting (ground arith) e w
                  | inr (inl w) ↦ too_early setting (ground arith) e w
                  | inr (inr w) ↦ room_Refuses setting e h on w
                ]
          ]
        ]

    late_Refuses :
        (user : UserBookingState)
        → store.get_user_booking_state input.user_id s ≡ ok (some user)
        → attempt store input s ≡ refuse reason
        → is_shadow_banned user.booking_status ≡ false
        → is_restricted user input.now ≡ false
        → Refuses input s reason
    unfolding attempt
    late_Refuses user e h b c = elim (reservable-cases (is_reservable_date input.date input.now)) [
      | inl d ↦ absurd (ground arith)
      | inr (inl d) ↦ out_of_time (ground arith) d
      | inr (inr d) ↦ elim (Check-cases (check_period store input s)) [
        | inl (setting, k) ↦ absurd (ground arith)
        | inr (inl (r, k)) ↦ check_period-Refuses (ground arith)
        | inr (inr (x, k)) ↦ absurd (ground arith)
      ]
    ]

    attempt-Refuses : attempt store input s ≡ refuse reason → Refuses input s reason
    unfolding attempt
    attempt-Refuses h = elim (lookup-cases (store.get_user_booking_state input.user_id s)) [
      | inl (x, e) ↦ absurd (ground arith)
      | inr (inl e) ↦ no_student (ground arith) e
      | inr (inr (user, e)) ↦ elim (Bool-cases (is_shadow_banned user.booking_status)) [
        | inl b ↦ is_shadow user (ground arith) e b
        | inr b ↦ elim (Bool-cases (is_restricted user input.now)) [
          | inl c ↦ is_barred user (ground arith) e c
          | inr c ↦ late_Refuses user e h b c
        ]
      ]
    ]

    settle-Refuses :
        (c : Check (Reservation × S)) (s' : S)
        → attempt store input s ≡ c
        → settle store s c ≡ ok (error reason, s')
        → (s' ≡ s) × Refuses input s reason
    settle-Refuses (pass x) s' e h = ground arith
    settle-Refuses (refuse r) s' e h = (ground arith, attempt-Refuses (ground arith))
    settle-Refuses (fail identity_conflict) s' e h = (ground arith, raced (ground arith) e)
    settle-Refuses (fail x) s' e h = absurd (ground arith)

    -- A refused booking leaves the state as it was, and the reason that it gives holds.
    pub reserve_study_period-Refuses :
        (s' : S)
        → reserve_study_period store input s ≡ ok (error reason, s')
        → (s' ≡ s) × Refuses input s reason
    unfolding reserve_study_period
    reserve_study_period-Refuses s' h = settle-Refuses (attempt store input s) s' refl h
