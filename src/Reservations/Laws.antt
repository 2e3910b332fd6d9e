-- ===== src/Reservations/Laws.antt =====
-- What the booking operation needs of a store, whichever it is, and what it keeps in return: no
-- period is overbooked, and no student holds a period twice.
use info_room_reservation_si.Prelude.{
  ◌+◌, ◌≤◌, ◌<◌, ◌≡◌, refl, sym, ◌∙◌, inl, inr, Bool, true, ◌&&◌, none, some, List, [], ◌∷◌, ◌++◌,
  Text, arith, count, count-append, text_eq, text_eq_sound, Bool-cases, if◌then◌else◌,
}
use info_room_reservation_si.StudyPeriods.{StudyPeriod, period_eq, period_eq_sound}
use info_room_reservation_si.PeriodSettings.{PeriodSetting}
use info_room_reservation_si.Reservations.{
  Reservation, ReservationResult, confirmed, error, Draft, Try, ok, throw, ReservationStore,
  ReserveStudyPeriodInput, is_confirmed,
}
use info_room_reservation_si.Reservations.Service.{draft_of, reserve_study_period}
use info_room_reservation_si.Reservations.Decision.{IsBooked, reserve_study_period-confirmed_iff}
use info_room_reservation_si.Reservations.Refusal.{reserve_study_period-Refuses}

-- A confirmed booking of a period, and one by a student.
abbrev pub is_slot : Text → StudyPeriod → Reservation → Bool
is_slot date p r = text_eq r.date date && (period_eq r.study_period p && is_confirmed r.status)

abbrev pub is_own : Text → StudyPeriod → Text → Reservation → Bool
is_own date p user_id r =
    text_eq r.date date
    && (period_eq r.study_period p && (text_eq r.user_id user_id && is_confirmed r.status))

-- The new booking is the draft's, and confirmed.
pub record IsOf (draft : Draft) (r : Reservation) : Type 0 where
  pub date : r.date ≡ draft.date
  pub study_period : r.study_period ≡ draft.study_period
  pub user_id : r.user_id ≡ draft.user_id
  pub confirms : is_confirmed r.status ≡ true

pub record StoreLaws {S : Type 0} (store : ReservationStore S) : Type 0 where
  -- every booking, the newest last
  pub booked : S → List Reservation
  pub count_lem :
      (date : Text) (p : StudyPeriod) (s : S)
      → store.count_confirmed_reservations date p s ≡ count (is_slot date p) (booked s)
  pub find_lem :
      (date : Text) (p : StudyPeriod) (user_id : Text) (s : S)
      → store.find_reservation date p user_id s ≡ ok none
      → count (is_own date p user_id) (booked s) ≡ 0
  pub create-booked :
      (draft : Draft) (s : S) (r : Reservation) (s' : S)
      → store.create_reservation draft s ≡ ok (r, s')
      → booked s' ≡ booked s ++ r ∷ []
  pub create-IsOf :
      (draft : Draft) (s : S) (r : Reservation) (s' : S)
      → store.create_reservation draft s ≡ ok (r, s')
      → IsOf draft r
  pub create-get_period_setting :
      (draft : Draft) (s : S) (r : Reservation) (s' : S) (date : Text) (p : StudyPeriod)
      → store.create_reservation draft s ≡ ok (r, s')
      → store.get_period_setting date p s' ≡ store.get_period_setting date p s

module _ {S : Type 0} (store : ReservationStore S) (laws : StoreLaws store) where
  open laws use {booked, count_lem, find_lem, create-booked, create-IsOf, create-get_period_setting}

  pub record IsSound (s : S) : Type 0 where
    pub within :
        (date : Text) (p : StudyPeriod) (setting : PeriodSetting)
        → store.get_period_setting date p s ≡ ok (some setting)
        → count (is_slot date p) (booked s) ≤ setting.capacity
    pub once :
        (date : Text) (p : StudyPeriod) (user_id : Text)
        → count (is_own date p user_id) (booked s) ≤ 1

  count-booked :
      (t : Reservation → Bool) (draft : Draft) (s : S) (r : Reservation) (s' : S)
      → store.create_reservation draft s ≡ ok (r, s')
      → count t (booked s') ≡ count t (booked s) + (if t r then 1 else 0)
  count-booked t draft s r s' h =
      rw (create-booked draft s r s' h) (count-append t (booked s) (r ∷ []) ∙ ground arith)

  module _ (input : ReserveStudyPeriodInput) (s : S) (r : Reservation) (s' : S)
      (b : IsBooked store input s r s') (v : IsSound s) where
    -- The slot of the new booking has the input's date and period.
    slot_of_input :
        (date : Text) (p : StudyPeriod)
        → is_slot date p r ≡ true
        → (date ≡ input.date) × (p ≡ input.study_period)
    slot_of_input date p h =
        let is = create-IsOf (draft_of input) s r s' b.created in
        ground (
          arith,
          is.date,
          is.study_period,
          text_eq_sound r.date date,
          period_eq_sound r.study_period p,
        )

    room_before :
        (date : Text) (p : StudyPeriod) (setting : PeriodSetting)
        → date ≡ input.date
        → p ≡ input.study_period
        → store.get_period_setting date p s ≡ ok (some setting)
        → count (is_slot date p) (booked s) < setting.capacity
    room_before date p setting d q h =
        let k : count (is_slot input.date input.study_period) (booked s) < b.setting.capacity =
          rw (count_lem input.date input.study_period s) at b.offered.has_room in
        let same : setting ≡ b.setting = cc b.offered.is_set in rw (d, q, same) k

    within_after :
        (date : Text) (p : StudyPeriod) (setting : PeriodSetting)
        → store.get_period_setting date p s' ≡ ok (some setting)
        → count (is_slot date p) (booked s') ≤ setting.capacity
    within_after date p setting h =
        let e = sym (create-get_period_setting (draft_of input) s r s' date p b.created) ∙ h in
        let counted = count-booked (is_slot date p) (draft_of input) s r s' b.created in
        elim (Bool-cases (is_slot date p r)) [
          | inr other ↦ omega (arith, rw other at counted, v.within date p setting e)
          | inl same ↦
              let (d, q) = slot_of_input date p same in
              omega (arith, rw same at counted, room_before date p setting d q e)
        ]

    own_of_input :
        (date : Text) (p : StudyPeriod) (user_id : Text)
        → is_own date p user_id r ≡ true
        → (date ≡ input.date) × (p ≡ input.study_period) × (user_id ≡ input.user_id)
    own_of_input date p user_id h =
        let is = create-IsOf (draft_of input) s r s' b.created in
        ground (
          arith,
          is.date,
          is.study_period,
          is.user_id,
          text_eq_sound r.date date,
          text_eq_sound r.user_id user_id,
          period_eq_sound r.study_period p,
        )

    none_before :
        (date : Text) (p : StudyPeriod) (user_id : Text)
        → date ≡ input.date
        → p ≡ input.study_period
        → user_id ≡ input.user_id
        → count (is_own date p user_id) (booked s) ≡ 0
    none_before date p user_id d q u =
        rw (d, q, u) (find_lem input.date input.study_period input.user_id s b.offered.is_new)

    once_after :
        (date : Text) (p : StudyPeriod) (user_id : Text)
        → count (is_own date p user_id) (booked s') ≤ 1
    once_after date p user_id =
        let counted = count-booked (is_own date p user_id) (draft_of input) s r s' b.created in
        elim (Bool-cases (is_own date p user_id r)) [
          | inr other ↦ omega (arith, rw other at counted, v.once date p user_id)
          | inl same ↦
              let (d, q, u) = own_of_input date p user_id same in
              omega (arith, rw same at counted, none_before date p user_id d q u)
        ]

  result_IsSound :
      (input : ReserveStudyPeriodInput) (s : S) (result : ReservationResult) (s' : S)
      → reserve_study_period store input s ≡ ok (result, s')
      → IsSound s
      → IsSound s'
  result_IsSound input s (confirmed r) s' h v =
      let b = (reserve_study_period-confirmed_iff store input s r s').0 h in
      record { within = within_after input s r s' b v; once = once_after input s r s' b v }
  result_IsSound input s (error reason) s' h v =
      rw ((reserve_study_period-Refuses store input s reason s' h).0) v

  -- One transaction: the new state, or the old one if the operation throws.
  unfoldable pub after : S → Try (ReservationResult × S) → S
  after s (ok (result, s')) = s'
  after s (throw e) = s

  unfoldable pub run : List ReserveStudyPeriodInput → S → S
  unfolding after
  run [] s = s
  run (input ∷ inputs) s = run inputs (after s (reserve_study_period store input s))

  after-IsSound :
      (s : S) (t : Try (ReservationResult × S))
      → ((result : ReservationResult) (s' : S) → t ≡ ok (result, s') → IsSound s')
      → IsSound s
      → IsSound (after s t)
  unfolding after
  after-IsSound s (ok (result, s')) h v = h result s' refl
  after-IsSound s (throw e) h v = v

  -- From a state in which no period is overbooked and no student holds a period twice, however many
  -- bookings are attempted, one after another, that stays so.
  pub run-IsSound :
      (inputs : List ReserveStudyPeriodInput) (s : S) → IsSound s → IsSound (run inputs s)
  unfolding run
  run-IsSound [] s v = v
  run-IsSound (input ∷ inputs) s v =
      run-IsSound inputs (after s (reserve_study_period store input s)) (
        after-IsSound s (reserve_study_period store input s)
          (λ result s' h. result_IsSound input s result s' h v) v)
