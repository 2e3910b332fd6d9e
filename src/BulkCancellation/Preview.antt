-- ===== src/BulkCancellation/Preview.antt =====
-- A preview tells what the cancellations will do.
use info_room_reservation_si.Prelude.{
  find-sort_by, find-filter-some, count-filter-le, ℕ, ◌+◌, ◌≡◌, refl, sym, ap, ◌∙◌, Bool, false,
  Option, none, some, List, [], ◌∷◌, Text, text_eq, any, find, filter, map, length, sort_by,
  count-sort_by, arith,
}
use info_room_reservation_si.Database.{ReservationRow, Database, has_id}
use info_room_reservation_si.MemoryStore.{lookup}
use info_room_reservation_si.BulkCancellation.{
  execute, preview, AdministratorBulkCancellationInput, BulkCancellationStatus, cancelled, conflict,
  invalid_status, not_found, BulkCancellationSummary, preview_status, target_after, tally,
  summarize, build_result, or_not_found, resolve, execute_all,
  bulk_cancel_administrator_reservations,
}
use info_room_reservation_si.BulkCancellation.Steps.{IsKeyed, found_status, execute_all_lem}

module _ (new_action_id : Database → Text) (conflicts : Text → Bool)
    (never : (id : Text) → conflicts id ≡ false) (input : AdministratorBulkCancellationInput) where
  or_not_found-found :
      (o : Option ReservationRow) → or_not_found (found_status o none) ≡ preview_status o
  unfolding preview_status
  or_not_found-found none = refl
  or_not_found-found (some t) = refl

  executed_status :
      (s : Database)
      → IsKeyed s.reservations
      → (id : Text)
      → or_not_found (
          lookup id
            (execute_all new_action_id conflicts input
              (sort_by target_after (resolve input.reservation_ids s))
              []
              s).0)
        ≡ preview_status (find (has_id id) (resolve input.reservation_ids s))
  unfolding resolve lookup preview_status
  executed_status s v id =
      let selected = λ (r : ReservationRow). any (text_eq r.id) input.reservation_ids in
      let targets = filter selected s.reservations in
      let one : IsKeyed targets =
        λ j. omega (arith, count-filter-le (has_id j) selected s.reservations, v j) in
      let sorted : IsKeyed (sort_by target_after targets) =
        λ j. omega (arith, count-sort_by target_after (has_id j) targets, one j) in
      let agrees =
        λ (j : Text) (t : ReservationRow)
            (f : find (has_id j) (sort_by target_after targets) ≡ some t).
          find-filter-some (has_id j) selected t s.reservations (v j)
            (sym (find-sort_by (has_id j) target_after targets (one j)) ∙ f) in
      ap or_not_found (
        execute_all_lem new_action_id conflicts never input (sort_by target_after targets) [] s v
          sorted agrees id)
      ∙ ap (λ o. or_not_found (found_status o none))
          (find-sort_by (has_id id) target_after targets (one id))
      ∙ or_not_found-found (find (has_id id) targets)

  map-executed :
      (s : Database)
      → IsKeyed s.reservations
      → (ids : List Text)
      → map {B = Text × BulkCancellationStatus}
          (λ id. (
            id,
            or_not_found (
                lookup id
                  (execute_all new_action_id conflicts input
                    (sort_by target_after (resolve input.reservation_ids s))
                    []
                    s).0),
          ))
          ids
        ≡ map {B = Text × BulkCancellationStatus}
            (λ id. (id, preview_status (find (has_id id) (resolve input.reservation_ids s))))
            ids
  map-executed s v [] = refl
  map-executed s v (id ∷ ids) = rw (executed_status s v id, map-executed s v ids) refl

-- Where every key has at most one reservation and no transaction exhausts its retries, the
-- cancellations answer exactly what their preview says, for each reservation and in sum; and a
-- preview changes nothing.
pub bulk_cancel_administrator_reservations-preview :
    (new_action_id : Database → Text) (conflicts : Text → Bool)
    (input : AdministratorBulkCancellationInput) (s : Database)
    → ((id : Text) → conflicts id ≡ false)
    → IsKeyed s.reservations
    → ((bulk_cancel_administrator_reservations new_action_id conflicts
          (record input { mode = execute })
          s).0
        ≡ (bulk_cancel_administrator_reservations new_action_id conflicts
            (record input { mode = preview })
            s).0)
      × ((bulk_cancel_administrator_reservations new_action_id conflicts
            (record input { mode = preview })
            s).1
          ≡ s)
unfolding bulk_cancel_administrator_reservations
bulk_cancel_administrator_reservations-preview new_action_id conflicts input s never v = (
  ap build_result (
      map-executed new_action_id conflicts never (record input { mode = execute }) s v
        input.reservation_ids),
  refl,
)

abbrev pub sum_of : BulkCancellationSummary → ℕ
sum_of s = s.cancelled_count + s.conflict_count + s.invalid_status_count + s.not_found_count

summarize-sum :
    (results : List (Text × BulkCancellationStatus)) (s : BulkCancellationSummary)
    → (sum_of (summarize results s) ≡ sum_of s + length results)
      × ((summarize results s).total ≡ s.total)
unfolding summarize
summarize-sum [] s = (omega arith, refl)
summarize-sum ((id, cancelled) ∷ results) s =
    ground (arith, summarize-sum results (tally cancelled s))
summarize-sum ((id, conflict) ∷ results) s =
    ground (arith, summarize-sum results (tally conflict s))
summarize-sum ((id, invalid_status) ∷ results) s =
    ground (arith, summarize-sum results (tally invalid_status s))
summarize-sum ((id, not_found) ∷ results) s =
    ground (arith, summarize-sum results (tally not_found s))

-- In the summary the four counts add up to the total, which is the number of results.
pub build_result-sum :
    (results : List (Text × BulkCancellationStatus))
    → (sum_of (build_result results).summary ≡ (build_result results).summary.total)
      × ((build_result results).summary.total ≡ length results)
unfolding build_result
build_result-sum results =
    let (counts, total) = summarize-sum results (record {
      cancelled_count = 0;
      conflict_count = 0;
      invalid_status_count = 0;
      not_found_count = 0;
      total = length results;
    }) in
    ground arith
