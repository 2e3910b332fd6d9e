-- ===== src/Deliveries/Refines.antt =====
-- The operations on the table of deliveries in src/lib/prisma-notification-repository.ts do to the cell
-- of a period what the operations on cells say.
use info_room_reservation_si.Prelude.{
  ℕ, ◌≡◌, refl, Bool, true, ◌&&◌, Option, none, some, [], ◌∷◌, Text, text_eq, text_eq_refl, count,
  find_sound, if◌then◌else◌, ◌==◌, arith, update_where, find-update_where, find-update_where-none,
  count-both, count-both-none, any-find-none, any-find-some, find-append-none, count-update_where,
  any-eq-false→count, count-append,
}
use info_room_reservation_si.StudyPeriods.{StudyPeriod, period_eq_refl}
use info_room_reservation_si.ClosedPeriods.{closed_list_notification_kind}
use info_room_reservation_si.Deliveries.{
  DeliveryRow, DeliveryTables, parse_delivery_status, is_delivery_of, ResolveAction, abandon,
  confirm_sent, DeliveryWrite, is_reconciliation_status, status_text, find_delivery_record,
}
use info_room_reservation_si.Deliveries.Table.{
  is_claimable_status, claimed_row, first_claim_row, claim_delivery, with_deliveries, saved_row,
  save_delivery, reclaimed_row, claim_delivery_for_reconciliation, is_resolvable, resolved_row,
  resolve_delivery, change_unchanged, reclaim_found, resolve_found,
}
use info_room_reservation_si.Deliveries.Cells.{
  cell, IsUniqueFor, claim_cell, claim_reply, is_savable, save_cell, save_reply, change_cell,
  change_reply,
}

is_delivery_of-first_claim_row :
    (date : Text) (p : StudyPeriod) (clock : ℕ)
    → is_delivery_of date p (first_claim_row date p clock) ≡ true
is_delivery_of-first_claim_row date p clock =
    ground (arith, text_eq_refl date, period_eq_refl p, text_eq_refl closed_list_notification_kind)

module _ (date : Text) (p : StudyPeriod) (s : DeliveryTables) (unique : IsUniqueFor date p s) where
  -- Updating the rows of a period that a test holds of.
  module _ (q : DeliveryRow → Bool) (f : DeliveryRow → DeliveryRow)
      (keeps : (x : DeliveryRow) → is_delivery_of date p (f x) ≡ is_delivery_of date p x)
      (row : DeliveryRow) (here : cell date p s ≡ some row) where
    abbrev both : DeliveryRow → Bool
    both x = is_delivery_of date p x && q x

    cell-update :
        cell date p (with_deliveries (update_where both f s.deliveries) s)
        ≡ some (if q row then f row else row)
    cell-update = ground (
      arith,
      find-update_where both f (is_delivery_of date p) keeps s.deliveries row here,
      find_sound (is_delivery_of date p) s.deliveries row here,
    )

    count-update : count both s.deliveries ≡ (if q row then 1 else 0)
    count-update = count-both (is_delivery_of date p) q s.deliveries row unique here

  abbrev is_claimable_row : DeliveryRow → Bool
  is_claimable_row row = is_claimable_status row.status

  module _ (clock : ℕ) where
    claim_delivery-some :
        (row : DeliveryRow)
        → cell date p s ≡ some row
        → ((claim_delivery clock date p s).0 ≡ claim_reply date p clock (some row))
          × (cell date p (claim_delivery clock date p s).1 ≡ claim_cell date p clock (some row))
    unfolding claim_delivery find_delivery_record
    claim_delivery-some row here = ground (
      arith,
      cell-update is_claimable_row (claimed_row clock) (λ x. refl) row here,
      count-update is_claimable_row (claimed_row clock) (λ x. refl) row here,
      any-find-some (is_delivery_of date p) s.deliveries row here,
    )

    claim_delivery-none :
        cell date p s ≡ none
        → ((claim_delivery clock date p s).0 ≡ claim_reply date p clock none)
          × (cell date p (claim_delivery clock date p s).1 ≡ claim_cell date p clock none)
    unfolding claim_delivery find_delivery_record
    claim_delivery-none here = ground (
      arith,
      count-both-none (is_delivery_of date p) is_claimable_row s.deliveries here,
      any-find-none (is_delivery_of date p) s.deliveries here,
      find-append-none (is_delivery_of date p)
          (update_where (λ x. is_delivery_of date p x && is_claimable_row x) (claimed_row clock)
            s.deliveries)
          (first_claim_row date p clock)
          (find-update_where-none (λ x. is_delivery_of date p x && is_claimable_row x)
            (claimed_row clock) (is_delivery_of date p) (λ x. refl) s.deliveries here)
          (is_delivery_of-first_claim_row date p clock),
    )

  module _ (change : DeliveryRow → DeliveryRow)
      (keeps : (x : DeliveryRow) → is_delivery_of date p (change x) ≡ is_delivery_of date p x) where
    change_unchanged-some :
        (row : DeliveryRow)
        → cell date p s ≡ some row
        → ((change_unchanged date p row change s).0
            ≡ change_reply (λ status. true) change (some row))
          × (cell date p (change_unchanged date p row change s).1
              ≡ change_cell (λ status. true) change (some row))
    unfolding change_unchanged find_delivery_record
    change_unchanged-some row here = ground (
      arith,
      cell-update
          (λ x.
            text_eq x.status (status_text (parse_delivery_status row.status))
            && x.updated_at == row.updated_at)
          change keeps row here,
      count-update
          (λ x.
            text_eq x.status (status_text (parse_delivery_status row.status))
            && x.updated_at == row.updated_at)
          change keeps row here,
    )

  reclaim-some :
      (clock : ℕ) (row : DeliveryRow)
      → cell date p s ≡ some row
      → ((reclaim_found clock date p (some row) s).0
          ≡ change_reply is_reconciliation_status (reclaimed_row clock) (some row))
        × (cell date p (reclaim_found clock date p (some row) s).1
            ≡ change_cell is_reconciliation_status (reclaimed_row clock) (some row))
  reclaim-some clock row here =
      ground (arith, change_unchanged-some (reclaimed_row clock) (λ x. refl) row here)

  resolve-some :
      (action : ResolveAction) (now clock : ℕ) (row : DeliveryRow)
      → cell date p s ≡ some row
      → ((resolve_found action now clock date p (some row) s).0
          ≡ change_reply (is_resolvable action) (resolved_row action now clock) (some row))
        × (cell date p (resolve_found action now clock date p (some row) s).1
            ≡ change_cell (is_resolvable action) (resolved_row action now clock) (some row))
  resolve-some abandon now clock row here =
      ground (arith, change_unchanged-some (resolved_row abandon now clock) (λ x. refl) row here)
  resolve-some confirm_sent now clock row here =
      ground
        (arith, change_unchanged-some (resolved_row confirm_sent now clock) (λ x. refl) row here)

  -- Where the table has at most one delivery of a period, a claim answers and changes the cell of the
  -- period as a claim on the cell does: it makes a delivery that is being sent where there is none,
  -- takes one that is pending or failed, as one more attempt that is being sent, and answers with
  -- what it made or took; any other delivery it leaves alone, and answers nothing.
  pub claim_delivery-refines :
      (clock : ℕ)
      → ((claim_delivery clock date p s).0 ≡ claim_reply date p clock (cell date p s))
        × (cell date p (claim_delivery clock date p s).1 ≡ claim_cell date p clock (cell date p s))
  claim_delivery-refines clock = by_cell (cell date p s) refl
    where
      by_cell :
          (c : Option DeliveryRow)
          → cell date p s ≡ c
          → ((claim_delivery clock date p s).0 ≡ claim_reply date p clock (cell date p s))
            × (cell date p (claim_delivery clock date p s).1
                ≡ claim_cell date p clock (cell date p s))
      by_cell none here = rw here (claim_delivery-none clock here)
      by_cell (some row) here = rw here (claim_delivery-some clock row here)

  pub claim_delivery_for_reconciliation-refines :
      (clock : ℕ)
      → ((claim_delivery_for_reconciliation clock date p s).0
          ≡ change_reply is_reconciliation_status (reclaimed_row clock) (cell date p s))
        × (cell date p (claim_delivery_for_reconciliation clock date p s).1
            ≡ change_cell is_reconciliation_status (reclaimed_row clock) (cell date p s))
  unfolding claim_delivery_for_reconciliation
  claim_delivery_for_reconciliation-refines clock = by_cell (cell date p s) refl
    where
      by_cell :
          (c : Option DeliveryRow)
          → cell date p s ≡ c
          → ((reclaim_found clock date p c s).0
              ≡ change_reply is_reconciliation_status (reclaimed_row clock) c)
            × (cell date p (reclaim_found clock date p c s).1
                ≡ change_cell is_reconciliation_status (reclaimed_row clock) c)
      by_cell none here = (refl, here)
      by_cell (some row) here = reclaim-some clock row here

  pub resolve_delivery-refines :
      (action : ResolveAction) (now clock : ℕ)
      → ((resolve_delivery action now clock date p s).0
          ≡ change_reply (is_resolvable action) (resolved_row action now clock) (cell date p s))
        × (cell date p (resolve_delivery action now clock date p s).1
            ≡ change_cell (is_resolvable action) (resolved_row action now clock) (cell date p s))
  unfolding resolve_delivery
  resolve_delivery-refines action now clock = by_cell (cell date p s) refl
    where
      by_cell :
          (c : Option DeliveryRow)
          → cell date p s ≡ c
          → ((resolve_found action now clock date p c s).0
              ≡ change_reply (is_resolvable action) (resolved_row action now clock) c)
            × (cell date p (resolve_found action now clock date p c s).1
                ≡ change_cell (is_resolvable action) (resolved_row action now clock) c)
      by_cell none here = (refl, here)
      by_cell (some row) here = resolve-some action now clock row here

module _ (write : DeliveryWrite) (s : DeliveryTables) (clock : ℕ) where
  abbrev kept : Option DeliveryRow
  kept = cell write.date write.study_period s

  save_delivery-by_cell :
      (c : Option DeliveryRow)
      → IsUniqueFor write.date write.study_period s
      → kept ≡ c
      → ((save_delivery clock write s).0 ≡ save_reply write clock c)
        × (cell write.date write.study_period (save_delivery clock write s).1
            ≡ save_cell write clock c)
  unfolding save_delivery find_delivery_record
  save_delivery-by_cell none unique here = ground (
    arith,
    count-both-none (is_delivery_of write.date write.study_period) (is_savable write) s.deliveries
        here,
    find-update_where-none
        (λ x. is_delivery_of write.date write.study_period x && is_savable write x)
        (saved_row write clock) (is_delivery_of write.date write.study_period) (λ x. refl)
        s.deliveries here,
  )
  save_delivery-by_cell (some row) unique here = ground (
    arith,
    cell-update write.date write.study_period s unique (is_savable write) (saved_row write clock)
        (λ x. refl) row here,
    count-update write.date write.study_period s unique (is_savable write) (saved_row write clock)
        (λ x. refl) row here,
  )

  pub save_delivery-refines :
      IsUniqueFor write.date write.study_period s
      → ((save_delivery clock write s).0 ≡ save_reply write clock kept)
        × (cell write.date write.study_period (save_delivery clock write s).1
            ≡ save_cell write clock kept)
  save_delivery-refines unique = save_delivery-by_cell kept unique refl

-- A claim adds a row only where there is none.
pub claim_delivery-IsUniqueFor :
    (date : Text) (p : StudyPeriod) (s : DeliveryTables) (clock : ℕ)
    → IsUniqueFor date p s
    → IsUniqueFor date p (claim_delivery clock date p s).1
unfolding claim_delivery
claim_delivery-IsUniqueFor date p s clock unique = ground (
  arith,
  count-update_where (λ row. is_delivery_of date p row && is_claimable_status row.status)
      (claimed_row clock) (is_delivery_of date p) (λ row. refl) s.deliveries,
  any-eq-false→count (is_delivery_of date p) s.deliveries,
  count-append (is_delivery_of date p)
      (update_where (λ row. is_delivery_of date p row && is_claimable_status row.status)
        (claimed_row clock) s.deliveries)
      (first_claim_row date p clock ∷ []),
  is_delivery_of-first_claim_row date p clock,
)

-- A save adds none.
pub save_delivery-IsUniqueFor :
    (write : DeliveryWrite) (s : DeliveryTables) (clock : ℕ) (date : Text) (p : StudyPeriod)
    → IsUniqueFor date p s
    → IsUniqueFor date p (save_delivery clock write s).1
unfolding save_delivery
save_delivery-IsUniqueFor write s clock date p unique = ground (
  arith,
  count-update_where
      (λ row. is_delivery_of write.date write.study_period row && is_savable write row)
      (saved_row write clock) (is_delivery_of date p) (λ row. refl) s.deliveries,
)
