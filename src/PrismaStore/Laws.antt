-- ===== src/PrismaStore/Laws.antt =====
-- The store in the database meets what the booking operation needs of a store.
use info_room_reservation_si.Prelude.{
  ℕ, ◌≡◌, true, List, [], ◌∷◌, ◌++◌, any, Text, arith, inl, inr, ◌≢◌,
}
use info_room_reservation_si.StudyPeriods.{StudyPeriod, period_text}
use info_room_reservation_si.Reservations.{
  Reservation, Draft, ok, ReserveStudyPeriodInput, confirmed,
}
use info_room_reservation_si.Reservations.Service.{reserve_study_period}
use info_room_reservation_si.Reservations.Decision.{reserve_study_period-confirmed_iff}
use info_room_reservation_si.Reservations.Laws.{StoreLaws, IsOf, IsSound, run, run-IsSound}
use info_room_reservation_si.Database.{
  Try-cases, DatabaseActor, ReservationRow, Database, has_identity, insert_reservation,
  insert_message, set_database_context, to_reservation,
}
use info_room_reservation_si.PrismaStore.{
  prisma_setting, create_message, new_row, prisma_create, prisma_store,
}
use info_room_reservation_si.PrismaStore.Rows.{
  parsed, parsed-append, parse_confirmed, parse_stored_study_period-period_text, prisma_find-count,
  prisma_count-parsed,
}

module _ (actor : DatabaseActor) (new_id : Database → Text) (nonce_of : Text → Text)
    (clock : ℕ) where
  -- What the message changes, besides the messages: nothing, if the context was the actor's.
  create_message-frame :
      (reservation_id : Text) (s s' : Database)
      → create_message actor new_id nonce_of clock reservation_id s ≡ ok s'
      → (s'.reservations ≡ s.reservations)
        × (s'.period_settings ≡ s.period_settings)
        × (s.context ≡ actor → s'.context ≡ actor)
  unfolding create_message insert_message set_database_context
  create_message-frame reservation_id s s' h = (ground arith, ground arith, λ c. ground arith)

  module _ (draft : Draft) (s : Database) (r : Reservation) (s' : Database)
      (h : prisma_create actor new_id nonce_of clock draft s ≡ ok (r, s')) where
    abbrev row : ReservationRow
    row = new_row actor new_id nonce_of clock draft s

    abbrev inserted : Database
    inserted = record s { reservations = s.reservations ++ row ∷ [] }

    created_row :
        (create_message actor new_id nonce_of clock (new_id s) inserted ≡ ok s')
        × (to_reservation row ≡ ok r)
    unfolding prisma_create insert_reservation
    created_row =
        elim (Try-cases (create_message actor new_id nonce_of clock (new_id s) inserted)) [
          | inl (e, k) ↦ absurd (ground arith)
          | inr (announced, k) ↦ elim (Try-cases (to_reservation row)) [
            | inl (e, m) ↦ absurd (ground arith)
            | inr (r', m) ↦ (ground arith, ground arith)
          ]
        ]

    pub prisma_create-parsed : parsed s'.reservations ≡ parsed s.reservations ++ r ∷ []
    prisma_create-parsed =
        let (message, read) = created_row in
        rw ((create_message-frame (new_id s) inserted s' message).0)
          (parsed-append s.reservations row r read)

    pub prisma_create-IsOf : IsOf draft r
    unfolding to_reservation new_row
    prisma_create-IsOf =
        let read = created_row.1 in
        let status = parse_confirmed in
        let period = parse_stored_study_period-period_text draft.study_period in
        record {
          date = ground arith;
          study_period = ground arith;
          user_id = ground arith;
          confirms = ground arith;
        }

    pub prisma_create-prisma_setting :
        (date : Text) (p : StudyPeriod) → prisma_setting date p s' ≡ prisma_setting date p s
    unfolding prisma_setting
    prisma_create-prisma_setting date p =
        rw ((create_message-frame (new_id s) inserted s' created_row.0).1)

    -- After a booking the row-level policies see the store's actor again, if they did before.
    pub prisma_create-context : s.context ≡ actor → s'.context ≡ actor
    prisma_create-context c = (create_message-frame (new_id s) inserted s' created_row.0).2 c

  abbrev pub prisma_store_laws : StoreLaws (prisma_store actor new_id nonce_of clock)
  prisma_store_laws = record {
    booked = λ s. parsed s.reservations;
    count_lem = prisma_count-parsed;
    find_lem = prisma_find-count;
    create-booked = prisma_create-parsed;
    create-IsOf = prisma_create-IsOf;
    create-get_period_setting =
        λ draft s r s' date p h. prisma_create-prisma_setting draft s r s' h date p;
  }

  -- From any database without reservations, no run of bookings overbooks a period or books a
  -- student twice.
  pub run-prisma_store-IsSound :
      (inputs : List ReserveStudyPeriodInput) (s : Database)
      → s.reservations ≡ []
      → IsSound
          (prisma_store actor new_id nonce_of clock)
          prisma_store_laws
          (run (prisma_store actor new_id nonce_of clock) prisma_store_laws inputs s)
  run-prisma_store-IsSound inputs s e =
      run-IsSound (prisma_store actor new_id nonce_of clock) prisma_store_laws inputs s (
        rw e (record {
          within = λ date p setting h. omega arith;
          once = λ date p user_id. omega arith;
        }))

  -- A student with a row for the period, whatever its status, is not booked for it again.
  pub reserve_study_period-has_identity :
      (input : ReserveStudyPeriodInput) (s : Database) (r : Reservation) (s' : Database)
      → any (has_identity input.user_id input.date (period_text input.study_period)) s.reservations
        ≡ true
      → reserve_study_period (prisma_store actor new_id nonce_of clock) input s
        ≢ ok (confirmed r, s')
  unfolding prisma_create
  reserve_study_period-has_identity input s r s' h booked =
      let b =
        (reserve_study_period-confirmed_iff (prisma_store actor new_id nonce_of clock) input s r
            s').0
          booked in
      let made = b.created in ground arith
