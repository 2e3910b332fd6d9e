-- ===== src/Deliveries/Kept.antt =====
-- What saves leave in the cell of a period, however their transactions end: the service of
-- src/lib/closed-period-notification-service.ts with the repository of
-- src/lib/prisma-notification-repository.ts.
use info_room_reservation_si.Prelude.{
  ℕ, ◌≡◌, refl, Bool, true, false, Option, none, some, Text, codes, text_eq, arith,
  text_eq_complete,
}
use info_room_reservation_si.Deliveries.{
  DeliveryRow, DeliveryTables, DeliveryRecord, DeliveryWrite, to_delivery_record,
  find_delivery_record, record_of, FinalStatus, parse_delivery_status, status_text, final_status,
}
use info_room_reservation_si.Deliveries.Table.{save_delivery, saved_row}
use info_room_reservation_si.Deliveries.Cells.{cell, IsUniqueFor, save_cell, is_savable}
use info_room_reservation_si.Deliveries.Refines.{save_delivery-refines}
use info_room_reservation_si.Deliveries.Service.{delivery_skip, is_stale_record, status_skip}
use info_room_reservation_si.Deliveries.Database.{
  SaveFate, answers, rolls_back, loses_answer, save_result, end_save,
}
use info_room_reservation_si.Deliveries.Sending.{skips}

pub save_result-state : (x : Option DeliveryRecord × DeliveryTables) → (save_result x).1 ≡ x.1
save_result-state (none, s) = refl
save_result-state (some delivery, s) = refl

-- The row of a delivery that is being sent under a claim.
abbrev pub IsClaimedRow : ℕ → Option DeliveryRow → Type 0
IsClaimedRow at none = ⊥
IsClaimedRow at (some row) = (row.status ≡ codes "SENDING") × (row.updated_at ≡ at)

-- The row of a delivery that was sent.
abbrev pub IsSentRow : Option DeliveryRow → Type 0
IsSentRow none = ⊥
IsSentRow (some row) = row.status ≡ codes "SENT"

abbrev pub is_final : FinalStatus → Bool
is_final FinalStatus.failed = false
is_final FinalStatus.sent = true
is_final FinalStatus.unknown = true

status_skip-skips :
    (status : FinalStatus)
    → is_final status ≡ true
    → (manual stale : Bool)
    → skips (status_skip manual (parse_delivery_status (status_text (final_status status))) stale)
      ≡ true
unfolding parse_delivery_status text_eq
status_skip-skips FinalStatus.failed final manual stale = ground arith
status_skip-skips FinalStatus.sent final manual stale = refl
status_skip-skips FinalStatus.unknown final manual stale = refl

is_savable-IsClaimedRow :
    (write : DeliveryWrite) (row : DeliveryRow)
    → IsClaimedRow write.claim_updated_at (some row)
    → is_savable write row ≡ true
is_savable-IsClaimedRow write row (sending, claimed) =
    ground (arith, text_eq_complete row.status (codes "SENDING") sending)

-- Saving as sent, or with an open outcome, leaves no reason to send.
save_cell-skips :
    (write : DeliveryWrite) (at : ℕ) (c : Option DeliveryRow)
    → IsClaimedRow write.claim_updated_at c
    → is_final write.status ≡ true
    → (manual : Bool) (now : ℕ)
    → skips (delivery_skip manual (record_of (save_cell write at c)) now) ≡ true
unfolding to_delivery_record
save_cell-skips write at (some row) claimed final manual now =
    rw (is_savable-IsClaimedRow write row claimed) (
      status_skip-skips write.status final manual
        (is_stale_record (to_delivery_record (saved_row write at row)) now))
save_cell-skips write at none claimed final manual now = elim claimed [ ]

pub save_delivery-skips :
    (write : DeliveryWrite) (s : DeliveryTables) (at : ℕ)
    → IsUniqueFor write.date write.study_period s
    → IsClaimedRow write.claim_updated_at (cell write.date write.study_period s)
    → is_final write.status ≡ true
    → (manual : Bool) (now : ℕ)
    → skips (
        delivery_skip manual
          (find_delivery_record write.date write.study_period (save_delivery at write s).1)
          now)
      ≡ true
unfolding find_delivery_record
save_delivery-skips write s at unique claimed final manual now =
    rw (save_delivery-refines write s at unique).1
      (save_cell-skips write at (cell write.date write.study_period s) claimed final manual now)

-- A delivery that is being sent, or was sent, is no reason to send.
sending-skips :
    (status : Text)
    → status ≡ codes "SENDING"
    → (manual stale : Bool) → skips (status_skip manual (parse_delivery_status status) stale) ≡ true
unfolding parse_delivery_status text_eq
sending-skips status e manual stale = rw e (ground arith)

sent-skips :
    (status : Text)
    → status ≡ codes "SENT"
    → (manual stale : Bool) → skips (status_skip manual (parse_delivery_status status) stale) ≡ true
unfolding parse_delivery_status text_eq
sent-skips status e manual stale = rw e refl

IsClaimedRow-skips :
    (at : ℕ) (c : Option DeliveryRow)
    → IsClaimedRow at c
    → (manual : Bool) (now : ℕ) → skips (delivery_skip manual (record_of c) now) ≡ true
unfolding to_delivery_record
IsClaimedRow-skips at none claimed manual now = elim claimed [ ]
IsClaimedRow-skips at (some row) claimed manual now =
    sending-skips row.status claimed.0 manual (is_stale_record (to_delivery_record row) now)

IsSentRow-skips :
    (c : Option DeliveryRow)
    → IsSentRow c
    → (manual : Bool) (now : ℕ) → skips (delivery_skip manual (record_of c) now) ≡ true
unfolding to_delivery_record
IsSentRow-skips none was_sent manual now = elim was_sent [ ]
IsSentRow-skips (some row) was_sent manual now =
    sent-skips row.status was_sent manual (is_stale_record (to_delivery_record row) now)

-- A save under the claim writes the status, and no save changes a delivery that was sent.
save_cell-IsSentRow :
    (write : DeliveryWrite) (at : ℕ) (c : Option DeliveryRow)
    → IsClaimedRow write.claim_updated_at c
    → write.status ≡ FinalStatus.sent
    → IsSentRow (save_cell write at c)
save_cell-IsSentRow write at none claimed e = elim claimed [ ]
save_cell-IsSentRow write at (some row) claimed e =
    rw (is_savable-IsClaimedRow write row claimed, e) refl

save_cell-kept :
    (write : DeliveryWrite) (at : ℕ) (c : Option DeliveryRow)
    → IsSentRow c
    → IsSentRow (save_cell write at c)
save_cell-kept write at none was_sent = elim was_sent [ ]
save_cell-kept write at (some row) was_sent = ground (arith, other)
  where
    other : text_eq row.status (codes "SENDING") ≡ false
    other = unfold text_eq in rw was_sent refl

module _ (write : DeliveryWrite) (s : DeliveryTables) (at : ℕ)
    (unique : IsUniqueFor write.date write.study_period s) where
  abbrev held : DeliveryTables → Option DeliveryRow
  held = cell write.date write.study_period

  abbrev is_kept : Bool → ℕ → DeliveryTables → Bool
  is_kept manual now s' =
      skips (delivery_skip manual (find_delivery_record write.date write.study_period s') now)

  pub save_delivery-IsSentRow :
      IsClaimedRow write.claim_updated_at (held s)
      → write.status ≡ FinalStatus.sent
      → IsSentRow (held (save_delivery at write s).1)
  save_delivery-IsSentRow claimed e =
      rw (save_delivery-refines write s at unique).1
        (save_cell-IsSentRow write at (held s) claimed e)

  -- However the transaction ends, a save with a final status under the claim leaves no reason to
  -- send,
  pub end_save-skips :
      (fate : SaveFate)
      → IsClaimedRow write.claim_updated_at (held s)
      → is_final write.status ≡ true
      → (manual : Bool) (now : ℕ)
      → is_kept manual now (end_save fate s (save_delivery at write s)).1 ≡ true
  unfolding find_delivery_record
  end_save-skips answers claimed final manual now =
      rw (save_result-state (save_delivery at write s))
        (save_delivery-skips write s at unique claimed final manual now)
  end_save-skips (rolls_back error) claimed final manual now =
      IsClaimedRow-skips write.claim_updated_at (held s) claimed manual now
  end_save-skips (loses_answer error) claimed final manual now =
      save_delivery-skips write s at unique claimed final manual now

  kept-skips :
      IsSentRow (held s)
      → (manual : Bool) (now : ℕ) → is_kept manual now (save_delivery at write s).1 ≡ true
  unfolding find_delivery_record
  kept-skips was_sent manual now = rw (save_delivery-refines write s at unique).1 (
      IsSentRow-skips (save_cell write at (held s)) (save_cell-kept write at (held s) was_sent)
        manual now)

  -- and so does any save after the delivery was sent.
  pub end_save-kept :
      (fate : SaveFate)
      → IsSentRow (held s)
      → (manual : Bool) (now : ℕ)
      → is_kept manual now (end_save fate s (save_delivery at write s)).1 ≡ true
  unfolding find_delivery_record
  end_save-kept answers was_sent manual now =
      rw (save_result-state (save_delivery at write s)) (kept-skips was_sent manual now)
  end_save-kept (rolls_back error) was_sent manual now =
      IsSentRow-skips (held s) was_sent manual now
  end_save-kept (loses_answer error) was_sent manual now = kept-skips was_sent manual now
