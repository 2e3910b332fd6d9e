-- ===== src/MemoryStore.antt =====
-- The store in memory: src/lib/memory-reservation-store.ts. Its transactions run one at a time, by
-- the lock of `Lock`, so an operation is a function on the state.
pub mod Laws
pub mod Lock
use info_room_reservation_si.Prelude.{
  ℕ, zero, suc, ◌+◌, ◌≡◌, Bool, true, false, ◌&&◌, Option, none, some, List, [], ◌∷◌, ◌++◌, any,
  filter, find, length, Text, codes, text_eq, number_text, if◌then◌else◌,
}
use info_room_reservation_si.StudyPeriods.{
  StudyPeriod, eighth, first, period_eq, default_period_capacity,
}
use info_room_reservation_si.PeriodSettings.{PeriodSetting}
use info_room_reservation_si.Reservations.{
  BookingStatus, ReservationStatus, Reservation, UserBookingState, Draft, Try, ok, ReservationStore,
  is_confirmed,
}

pub record MemoryReservationStore : Type 0 where
  pub period_settings : List PeriodSetting
  pub reservations : List Reservation
  pub users : List (Text × UserBookingState)

pub record MemoryReservationStoreInput : Type 0 where
  pub capacity : Option ℕ
  pub close_time : Text
  pub date : Text
  pub open_time : Text
  pub restricted_users : List Text
  pub shadow_banned_users : List Text
  pub user_count : ℕ

abbrev pub has : Text → List Text → Bool
has x set = any (λ y. text_eq y x) set

abbrev pub seed_user : MemoryReservationStoreInput → ℕ → Text × UserBookingState
seed_user input index =
    let user_id = codes "user-" ++ number_text index in
    (
      user_id,
      record {
        booking_status =
            if has user_id input.shadow_banned_users
            then BookingStatus.shadow_banned
            else if has user_id input.restricted_users
            then BookingStatus.restricted
            else BookingStatus.active;
        restricted_until = none;
      },
    )

-- The loop from 1 to the user count.
unfoldable pub seed_users : MemoryReservationStoreInput → ℕ → List (Text × UserBookingState)
seed_users input zero = []
seed_users input (suc n) = seed_users input n ++ seed_user input (suc n) ∷ []

abbrev pub or_default : Option ℕ → ℕ → ℕ
or_default none d = d
or_default (some n) d = n

abbrev pub seed_setting : MemoryReservationStoreInput → StudyPeriod → PeriodSetting
seed_setting input p = record {
  capacity = or_default input.capacity default_period_capacity;
  close_time = input.close_time;
  date = input.date;
  enabled = true;
  open_time = input.open_time;
  study_period = p;
}

unfoldable pub create_memory_reservation_store :
    MemoryReservationStoreInput → MemoryReservationStore
unfolding seed_users
create_memory_reservation_store input = record {
  period_settings = seed_setting input eighth ∷ seed_setting input first ∷ [];
  reservations = [];
  users = seed_users input input.user_count;
}

unfoldable pub count_confirmed_reservations : Text → StudyPeriod → MemoryReservationStore → ℕ
count_confirmed_reservations date p s = length (
    filter (λ r. text_eq r.date date && (period_eq r.study_period p && is_confirmed r.status))
      s.reservations)

abbrev pub new_reservation : Draft → ℕ → Reservation
new_reservation draft position = record {
  date = draft.date;
  id = codes "reservation-" ++ number_text position;
  reason = some draft.reason;
  status = ReservationStatus.confirmed;
  study_period = draft.study_period;
  user_id = draft.user_id;
}

unfoldable pub create_reservation :
    Draft → MemoryReservationStore → Reservation × MemoryReservationStore
create_reservation draft s =
    let r = new_reservation draft (length s.reservations + 1) in
    (r, record s { reservations = s.reservations ++ r ∷ [] })

unfoldable pub find_reservation :
    Text → StudyPeriod → Text → MemoryReservationStore → Option Reservation
find_reservation date p user_id s =
    find
      (λ r.
        text_eq r.date date
        && (period_eq r.study_period p && (text_eq r.user_id user_id && is_confirmed r.status)))
      s.reservations

unfoldable pub get_period_setting :
    Text → StudyPeriod → MemoryReservationStore → Option PeriodSetting
get_period_setting date p s =
    find (λ setting. text_eq setting.date date && period_eq setting.study_period p)
      s.period_settings

-- `Map.get`
unfoldable pub lookup {ℓ} : {A : Type ℓ} → Text → List (Text × A) → Option A
lookup key [] = none
lookup key ((k, a) ∷ m) = if text_eq k key then some a else lookup key m

unfoldable pub get_user_booking_state : Text → MemoryReservationStore → Option UserBookingState
unfolding lookup
get_user_booking_state user_id s = lookup user_id s.users

abbrev pub memory_store : ReservationStore MemoryReservationStore
memory_store = record {
  count_confirmed_reservations = count_confirmed_reservations;
  create_reservation = λ draft s. ok (create_reservation draft s);
  find_reservation = λ date p user_id s. ok (find_reservation date p user_id s);
  get_period_setting = λ date p s. ok (get_period_setting date p s);
  get_user_booking_state = λ user_id s. ok (get_user_booking_state user_id s);
}
