-- ===== src/Examples/Bookings.antt =====
-- Bookings in the store in memory. Its day is Thursday 1970-01-01, open from 13:00 to 16:20.
use info_room_reservation_si.Prelude.{
  ◌*◌, ◌≡◌, ◌↔◌, refl, some, [], ◌∷◌, codes, text_eq, text_lt, number_text, arith, Text,
}
use info_room_reservation_si.StudyPeriods.{first, period_eq}
use info_room_reservation_si.Reservations.{
  Reservation, ReservationStatus, ReserveStudyPeriodInput, ok, confirmed, not_found, is_restricted,
}
use info_room_reservation_si.Calendar.{
  kst_day_of_week, add_days, parse_date, day_of_fields, day_of_civil, to_kst_date, day_text,
  civil_text, civil_of_day,
}
use info_room_reservation_si.AdvancePolicy.{
  is_reservable_date, is_selectable_advance_date, get_advance_reservation_policy,
}
use info_room_reservation_si.PeriodWindow.{get_period_window_state, to_minutes, time_text}
use info_room_reservation_si.Reservations.Service.{check_period, reserve_study_period}
use info_room_reservation_si.Reservations.Decision.{IsBooked, reserve_study_period-confirmed_iff}
use info_room_reservation_si.Reservations.Refusal.{Refuses, reserve_study_period-Refuses}
use info_room_reservation_si.Reservations.Laws.{IsSound, run, run-IsSound}
use info_room_reservation_si.MemoryStore.{
  MemoryReservationStore, MemoryReservationStoreInput, memory_store, get_user_booking_state,
  create_reservation, find_reservation, get_period_setting, count_confirmed_reservations, lookup,
  create_memory_reservation_store,
}
use info_room_reservation_si.MemoryStore.Laws.{
  memory_store_laws, run-create_memory_reservation_store-IsSound,
}
use info_room_reservation_si.MemoryStore.Lock.{
  acquire, enter, arrive, here, more, idle, IsOrderly, Reach-IsOrderly,
}

abbrev input : MemoryReservationStoreInput
input = record {
  capacity = some 1;
  close_time = codes "16:20";
  date = codes "1970-01-01";
  open_time = codes "13:00";
  restricted_users = [];
  shadow_banned_users = [];
  user_count = 2;
}

abbrev booking : Text → ReserveStudyPeriodInput
booking user_id = record {
  date = codes "1970-01-01";
  now = 5 * 3600000;
  reason = codes "study";
  study_period = first;
  user_id = user_id;
}

abbrev empty_store : MemoryReservationStore
empty_store = record { period_settings = []; reservations = []; users = [] }

abbrev booked : Reservation
booked = record {
  date = codes "1970-01-01";
  id = codes "reservation-1";
  reason = some (codes "study");
  status = ReservationStatus.confirmed;
  study_period = first;
  user_id = codes "user-1";
}

abbrev day_store : MemoryReservationStore
day_store = create_memory_reservation_store input

reserve_study_period-confirmed_iff_example :
    (reserve_study_period memory_store (booking (codes "user-1")) day_store
      ≡ ok (confirmed booked, record day_store { reservations = booked ∷ [] }))
    ↔ IsBooked memory_store
        (booking (codes "user-1"))
        day_store
        booked
        (record day_store { reservations = booked ∷ [] })
reserve_study_period-confirmed_iff_example =
    reserve_study_period-confirmed_iff memory_store (booking (codes "user-1")) day_store booked
      (record day_store { reservations = booked ∷ [] })

reserve_study_period-Refuses_example :
    (empty_store ≡ empty_store)
    × Refuses memory_store (booking (codes "user-1")) empty_store not_found
reserve_study_period-Refuses_example =
    reserve_study_period-Refuses memory_store (booking (codes "user-1")) empty_store not_found
      empty_store (unfold reserve_study_period get_user_booking_state in refl)

run-IsSound_example : IsSound memory_store memory_store_laws (
    run memory_store memory_store_laws
      (booking (codes "user-1") ∷ booking (codes "user-2") ∷ [])
      empty_store)
run-IsSound_example =
    run-IsSound memory_store memory_store_laws
      (booking (codes "user-1") ∷ booking (codes "user-2") ∷ []) empty_store
      (record { within = λ date p setting h. omega arith; once = λ date p user_id. omega arith })

run-create_memory_reservation_store-IsSound_example : IsSound memory_store memory_store_laws (
    run memory_store memory_store_laws
      (booking (codes "user-1") ∷ booking (codes "user-2") ∷ [])
      day_store)
run-create_memory_reservation_store-IsSound_example =
    run-create_memory_reservation_store-IsSound input
      (booking (codes "user-1") ∷ booking (codes "user-2") ∷ [])

Reach-IsOrderly_example : IsOrderly (
    enter
      (acquire 2 (enter (acquire 1 idle.lock) 1 idle).lock)
      2
      (enter (acquire 1 idle.lock) 1 idle))
Reach-IsOrderly_example = Reach-IsOrderly (more (more here (arrive 1)) (arrive 2))

-- The first student gets the only place.
first_booking :
    reserve_study_period memory_store (booking (codes "user-1")) day_store
    ≡ ok (confirmed booked, record day_store { reservations = booked ∷ [] })
unfolding reserve_study_period check_period create_memory_reservation_store get_user_booking_state
    create_reservation find_reservation get_period_setting count_confirmed_reservations lookup
    text_eq text_lt period_eq is_restricted is_reservable_date is_selectable_advance_date
    get_advance_reservation_policy kst_day_of_week add_days parse_date day_of_fields day_of_civil
    to_kst_date day_text civil_text civil_of_day get_period_window_state to_minutes time_text
    number_text
first_booking = refl
