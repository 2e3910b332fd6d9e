-- ===== src/Reservations/Decision.antt =====
-- When a booking is confirmed, and why one is refused.
use info_room_reservation_si.Prelude.{◌<◌, ◌≡◌, ◌↔◌, true, false, none, some, arith, lt→ltb}
use info_room_reservation_si.PeriodWindow.{open_now, get_period_window_state}
use info_room_reservation_si.PeriodSettings.{PeriodSetting}
use info_room_reservation_si.AdvancePolicy.{is_reservable_date}
use info_room_reservation_si.Reservations.{
  Reservation, confirmed, identity_conflict, ok, ReservationStore, ReserveStudyPeriodInput,
  UserBookingState, is_restricted, is_shadow_banned,
}
use info_room_reservation_si.Reservations.Checks.{Check, pass, refuse, fail}
use info_room_reservation_si.Reservations.Service.{
  window_setting, draft_of, check_period, attempt, settle, reserve_study_period,
}

module _ {S : Type 0} (store : ReservationStore S) where
  -- What a period must offer.
  pub record IsOffered (input : ReserveStudyPeriodInput) (s : S) (setting : PeriodSetting)
      : Type 0 where
    pub is_set : store.get_period_setting input.date input.study_period s ≡ ok (some setting)
    pub is_enabled : setting.enabled ≡ true
    pub is_open : get_period_window_state (window_setting setting) input.now ≡ open_now
    pub is_new : store.find_reservation input.date input.study_period input.user_id s ≡ ok none
    pub has_room :
        store.count_confirmed_reservations input.date input.study_period s < setting.capacity

  -- What a student must be.
  pub record IsAllowed (input : ReserveStudyPeriodInput) (s : S) (user : UserBookingState)
      : Type 0 where
    pub is_known : store.get_user_booking_state input.user_id s ≡ ok (some user)
    pub is_visible : is_shadow_banned user.booking_status ≡ false
    pub is_free : is_restricted user input.now ≡ false
    pub is_in_time : is_reservable_date input.date input.now ≡ some true

  check_period_sound :
      (input : ReserveStudyPeriodInput) (s : S) (setting : PeriodSetting)
      → check_period store input s ≡ pass setting
      → IsOffered input s setting
  unfolding check_period
  check_period_sound input s setting h = record {
    is_set = ground arith;
    is_enabled = ground arith;
    is_open = ground arith;
    is_new = ground arith;
    has_room = ground arith;
  }

  check_period_complete :
      (input : ReserveStudyPeriodInput) (s : S) (setting : PeriodSetting)
      → IsOffered input s setting
      → check_period store input s ≡ pass setting
  unfolding check_period
  check_period_complete input s setting v =
      rw (v.is_set, v.is_enabled, v.is_open, v.is_new, lt→ltb _ _ v.has_room)

  attempt-user :
      (input : ReserveStudyPeriodInput) (s : S) (r : Reservation × S)
      → attempt store input s ≡ pass r
      → (user : UserBookingState) × (store.get_user_booking_state input.user_id s ≡ ok (some user))
  unfolding attempt
  attempt-user input s r h = ground arith

  attempt-setting :
      (input : ReserveStudyPeriodInput) (s : S) (r : Reservation × S)
      → attempt store input s ≡ pass r
      → (setting : PeriodSetting) × (check_period store input s ≡ pass setting)
  unfolding attempt
  attempt-setting input s r h = ground arith

  attempt-IsAllowed :
      (input : ReserveStudyPeriodInput) (s : S) (r : Reservation × S) (user : UserBookingState)
      → attempt store input s ≡ pass r
      → store.get_user_booking_state input.user_id s ≡ ok (some user)
      → IsAllowed input s user
  unfolding attempt
  attempt-IsAllowed input s r user h known = record {
    is_known = known;
    is_visible = ground arith;
    is_free = ground arith;
    is_in_time = ground arith;
  }

  attempt-create :
      (input : ReserveStudyPeriodInput) (s : S) (r : Reservation × S)
      → attempt store input s ≡ pass r
      → store.create_reservation (draft_of input) s ≡ ok r
  unfolding attempt
  attempt-create input s r h = ground arith

  -- A booking that passes every check and is created.
  pub record IsBooked (input : ReserveStudyPeriodInput) (s : S) (r : Reservation) (s' : S)
      : Type 0 where
    pub user : UserBookingState
    pub setting : PeriodSetting
    pub allowed : IsAllowed input s user
    pub offered : IsOffered input s setting
    pub created : store.create_reservation (draft_of input) s ≡ ok (r, s')

  settle-confirmed :
      (s : S) (c : Check (Reservation × S)) (r : Reservation) (s' : S)
      → settle store s c ≡ ok (confirmed r, s')
      → c ≡ pass (r, s')
  settle-confirmed s (pass x) r s' h = ground arith
  settle-confirmed s (refuse reason) r s' h = ground arith
  settle-confirmed s (fail identity_conflict) r s' h = ground arith
  settle-confirmed s (fail e) r s' h = ground arith

  attempt_complete :
      (input : ReserveStudyPeriodInput) (s : S) (r : Reservation) (s' : S)
      → IsBooked input s r s'
      → attempt store input s ≡ pass (r, s')
  unfolding attempt
  attempt_complete input s r s' b =
      let a = b.allowed in
      rw (
        a.is_known,
        a.is_visible,
        a.is_free,
        a.is_in_time,
        check_period_complete input s b.setting b.offered,
        b.created,
      )

  -- A booking is confirmed exactly when the student may book, the period offers a place, and the
  -- store creates the reservation; the state is then the one that the store returns.
  pub reserve_study_period-confirmed_iff :
      (input : ReserveStudyPeriodInput) (s : S) (r : Reservation) (s' : S)
      → (reserve_study_period store input s ≡ ok (confirmed r, s')) ↔ IsBooked input s r s'
  reserve_study_period-confirmed_iff input s r s' =
      (to, λ b. unfold reserve_study_period in rw (attempt_complete input s r s' b))
    where
      to : reserve_study_period store input s ≡ ok (confirmed r, s') → IsBooked input s r s'
      to h =
          let p =
            settle-confirmed s (attempt store input s) r s' (unfold reserve_study_period in h) in
          let (user, known) = attempt-user input s (r, s') p in
          let (setting, checked) = attempt-setting input s (r, s') p in
          record {
            user = user;
            setting = setting;
            allowed = attempt-IsAllowed input s (r, s') user p known;
            offered = check_period_sound input s setting checked;
            created = attempt-create input s (r, s') p;
          }
