-- ===== src/BulkCancellation/Steps.antt =====
-- What each cancellation of a selection answers.
use info_room_reservation_si.Prelude.{
  find-eq-none, ◌≤◌, ◌≡◌, refl, ap, ◌∙◌, inl, inr, Bool, false, Option, none, some, List, [], ◌∷◌,
  Text, codes, text_eq, text_eq_sound, text_eq_refl, find, count, arith, Bool-cases,
}
use info_room_reservation_si.Database.{ReservationRow, Database, has_id, update_status}
use info_room_reservation_si.MemoryStore.{lookup}
use info_room_reservation_si.RateLimit.{assign}
use info_room_reservation_si.RateLimit.Limits.{lookup-assign}
use info_room_reservation_si.AdminReservations.{
  AdministratorCancellationInput, is_confirmed_with_id,
  cancel_administrator_reservation_in_transaction, cancel_administrator_reservation,
}
use info_room_reservation_si.AdminReservations.Cancellation.{
  cancel_administrator_reservation_in_transaction_lem,
}
use info_room_reservation_si.BulkCancellation.{
  AdministratorBulkCancellationInput, BulkCancellationStatus, preview_status, status_of,
  execute_cancellation, execute_all,
}

-- Each key has at most one row.
abbrev pub IsKeyed : List ReservationRow → Type 0
IsKeyed rows = (id : Text) → count (has_id id) rows ≤ 1

-- Updating one key's row leaves the others, and all keys.
find-update_status :
    (id j status : Text) (rows : List ReservationRow)
    → text_eq id j ≡ false
    → find (has_id j) (update_status (is_confirmed_with_id id) status rows) ≡ find (has_id j) rows
unfolding update_status
find-update_status id j status [] h = refl
find-update_status id j status (row ∷ rows) h =
    ground (arith, find-update_status id j status rows, text_eq_sound row.id id)

count-has_id-update_status :
    (id j status : Text) (rows : List ReservationRow)
    → count (has_id j) (update_status (is_confirmed_with_id id) status rows) ≡ count (has_id j) rows
unfolding update_status
count-has_id-update_status id j status [] = refl
count-has_id-update_status id j status (row ∷ rows) =
    ground (arith, count-has_id-update_status id j status rows)

abbrev pub found_status :
    Option ReservationRow → Option BulkCancellationStatus → Option BulkCancellationStatus
found_status none o = o
found_status (some t) o = some (preview_status (some t))

module _ (new_action_id : Database → Text) (conflicts : Text → Bool)
    (never : (id : Text) → conflicts id ≡ false) (input : AdministratorBulkCancellationInput) where
  abbrev input_of : Text → AdministratorCancellationInput
  input_of id = record {
    actor_id = input.actor_id;
    ip_hash = input.ip_hash;
    reason = input.reason;
    reservation_id = id;
    source = input.source;
  }

  -- What one cancellation answers and leaves as it was.
  record Executes (t : ReservationRow) (s : Database) : Type 0 where
    status : (execute_cancellation new_action_id conflicts input t.id s).0 ≡ preview_status (some t)
    keyed : IsKeyed (execute_cancellation new_action_id conflicts input t.id s).1.reservations
    others :
        (j : Text)
        → text_eq t.id j ≡ false
        → find (has_id j) (execute_cancellation new_action_id conflicts input t.id s).1.reservations
          ≡ find (has_id j) s.reservations

  cancel_administrator_reservation-found :
      (i : AdministratorCancellationInput) (t : ReservationRow) (s : Database)
      → find (has_id i.reservation_id) s.reservations ≡ some t
      → cancel_administrator_reservation new_action_id conflicts i s ≡ (
        some (cancel_administrator_reservation_in_transaction new_action_id i s).0,
        (cancel_administrator_reservation_in_transaction new_action_id i s).1,
      )
  unfolding cancel_administrator_reservation
  cancel_administrator_reservation-found i t s e = ground (arith, e, never i.reservation_id)

  execute-found :
      (t : ReservationRow) (s : Database)
      → find (has_id t.id) s.reservations ≡ some t
      → execute_cancellation new_action_id conflicts input t.id s ≡ (
        status_of (
            some
              (cancel_administrator_reservation_in_transaction new_action_id (input_of t.id) s).0),
        (cancel_administrator_reservation_in_transaction new_action_id (input_of t.id) s).1,
      )
  unfolding execute_cancellation
  execute-found t s e = rw (cancel_administrator_reservation-found (input_of t.id) t s e) refl

  execute-Executes :
      (t : ReservationRow) (s : Database)
      → IsKeyed s.reservations
      → find (has_id t.id) s.reservations ≡ some t
      → Executes t s
  unfolding preview_status
  execute-Executes t s v e =
      elim (cancel_administrator_reservation_in_transaction_lem new_action_id (input_of t.id) s
        (v t.id)) [
          | inl (n, r) ↦ absurd (ground arith)
          | inr (row, f, inl (c, r)) ↦
              let same : row ≡ t = ground arith in
              record {
                status = rw (execute-found t s e, r) (rw (← same, c) refl);
                keyed = rw (execute-found t s e, r) v;
                others = λ j d. rw (execute-found t s e, r) refl;
              }
          | inr (row, f, inr (c, r)) ↦
              let same : row ≡ t = ground arith in
              record {
                status = rw (execute-found t s e, r) (rw (← same, c) refl);
                keyed = λ j.
                    rw
                      (
                        execute-found t s e,
                        r,
                        count-has_id-update_status row.id j (codes "CANCELLED") s.reservations,
                      )
                      (v j);
                others = λ j d.
                    rw (execute-found t s e, r)
                      (find-update_status row.id j (codes "CANCELLED") s.reservations (rw same d));
              }
        ]

  pub execute_all_lem :
      (ts : List ReservationRow) (statuses : List (Text × BulkCancellationStatus)) (s : Database)
      → IsKeyed s.reservations
      → IsKeyed ts
      → ((id : Text) (t : ReservationRow)
          → find (has_id id) ts ≡ some t
          → find (has_id id) s.reservations ≡ some t)
      → (id : Text)
      → lookup id (execute_all new_action_id conflicts input ts statuses s).0
        ≡ found_status (find (has_id id) ts) (lookup id statuses)
  unfolding execute_all
  execute_all_lem [] statuses s v w agrees id = refl
  execute_all_lem (t ∷ ts) statuses s v w agrees id =
      let done = execute_cancellation new_action_id conflicts input t.id s in
      let here : find (has_id t.id) s.reservations ≡ some t =
        agrees t.id t (rw (text_eq_refl t.id) refl) in
      let x = execute-Executes t s v here in
      let rest =
        execute_all_lem ts (assign t.id done.0 statuses) done.1 x.keyed (λ j. ground (arith, w j))
          (λ j u f. elim (Bool-cases (text_eq t.id j)) [
            | inl b ↦
                absurd (ground (arith, f, find-eq-none (has_id j) ts (ground (arith, w j, b))))
            | inr d ↦ x.others j d ∙ agrees j u (rw d f)
          ])
          id in
      rest ∙ (elim (Bool-cases (text_eq t.id id)) [
        | inl b ↦
            rw
              (
                lookup-assign id t.id done.0 statuses,
                b,
                find-eq-none (has_id id) ts (ground (arith, w id, b)),
              )
              (ap some x.status)
        | inr d ↦ rw (lookup-assign id t.id done.0 statuses, d) refl
      ])
