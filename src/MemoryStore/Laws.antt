-- ===== src/MemoryStore/Laws.antt =====
-- The store in memory meets what the booking operation needs of a store.
use info_room_reservation_si.Prelude.{
  ◌≡◌, none, List, [], ◌∷◌, ◌++◌, Text, arith, count, length-filter, find-eq-none→count,
}
use info_room_reservation_si.StudyPeriods.{StudyPeriod}
use info_room_reservation_si.Reservations.{Reservation, Draft, ok, ReserveStudyPeriodInput}
use info_room_reservation_si.Reservations.Laws.{
  StoreLaws, IsOf, IsSound, is_slot, is_own, run, run-IsSound,
}
use info_room_reservation_si.MemoryStore.{
  MemoryReservationStore, MemoryReservationStoreInput, create_memory_reservation_store,
  count_confirmed_reservations, create_reservation, find_reservation, get_period_setting,
  memory_store,
}

pub count_lem :
    (date : Text) (p : StudyPeriod) (s : MemoryReservationStore)
    → count_confirmed_reservations date p s ≡ count (is_slot date p) s.reservations
unfolding count_confirmed_reservations
count_lem date p s = length-filter (is_slot date p) s.reservations

ok-injective : {A : Type 0} {a b : A} → ok a ≡ ok b → a ≡ b
ok-injective e = cc

pub find_lem :
    (date : Text) (p : StudyPeriod) (user_id : Text) (s : MemoryReservationStore)
    → ok (find_reservation date p user_id s) ≡ ok none
    → count (is_own date p user_id) s.reservations ≡ 0
unfolding find_reservation
find_lem date p user_id s h =
    find-eq-none→count (is_own date p user_id) s.reservations (ok-injective h)

module _ (draft : Draft) (s : MemoryReservationStore) (r : Reservation)
    (s' : MemoryReservationStore) (h : ok (create_reservation draft s) ≡ ok (r, s')) where
  pub create-booked : s'.reservations ≡ s.reservations ++ r ∷ []
  unfolding create_reservation
  create-booked = ground arith

  pub create-IsOf : IsOf draft r
  unfolding create_reservation
  create-IsOf = ground arith

  create-settings : s'.period_settings ≡ s.period_settings
  unfolding create_reservation
  create-settings = ground arith

  pub create-get_period_setting :
      (date : Text) (p : StudyPeriod)
      → ok (get_period_setting date p s') ≡ ok (get_period_setting date p s)
  unfolding get_period_setting
  create-get_period_setting date p = rw create-settings

abbrev pub memory_store_laws : StoreLaws memory_store
memory_store_laws = record {
  booked = λ s. s.reservations;
  count_lem = count_lem;
  find_lem = find_lem;
  create-booked = create-booked;
  create-IsOf = create-IsOf;
  create-get_period_setting =
      λ draft s r s' date p h. create-get_period_setting draft s r s' h date p;
}

-- From a new store, no run of bookings overbooks a period or books a student twice.
pub run-create_memory_reservation_store-IsSound :
    (input : MemoryReservationStoreInput) (inputs : List ReserveStudyPeriodInput)
    → IsSound memory_store memory_store_laws
        (run memory_store memory_store_laws inputs (create_memory_reservation_store input))
run-create_memory_reservation_store-IsSound input inputs =
    run-IsSound memory_store memory_store_laws inputs (create_memory_reservation_store input) (
      unfold create_memory_reservation_store in
      record { within = λ date p setting h. omega arith; once = λ date p user_id. omega arith })
