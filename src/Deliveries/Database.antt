-- ===== src/Deliveries/Database.antt =====
-- The repository of src/lib/prisma-notification-repository.ts as the service uses it. A claim writes one
-- instant in a row and the save after it another. Whether the transaction of a save fails is a
-- parameter.
use info_room_reservation_si.Prelude.{ℕ, Option, none, some}
use info_room_reservation_si.Deliveries.{
  DeliveryRecord, DeliveryTables, find_delivery_record, get_period, DeliveryWrite,
}
use info_room_reservation_si.Deliveries.Table.{
  claim_delivery, claim_delivery_for_reconciliation, resolve_delivery, save_delivery,
}
use info_room_reservation_si.Deliveries.Contracts.{
  SendError, DeliveryRepository, SaveResult, saved, lost, broken,
}

-- How the transaction of a save ends: it commits and answers, it is rolled back with an error, or it
-- commits but the answer is an error, as when the connection is lost.
pub data SaveFate : Type 0 where
  answers : SaveFate
  rolls_back : SendError → SaveFate
  loses_answer : SendError → SaveFate

abbrev pub save_result : Option DeliveryRecord × DeliveryTables → SaveResult × DeliveryTables
save_result (none, s) = (lost, s)
save_result (some delivery, s) = (saved delivery, s)

-- The end of a transaction that would lead from the first state to the second.
abbrev pub end_save :
    SaveFate → DeliveryTables → Option DeliveryRecord × DeliveryTables → SaveResult × DeliveryTables
end_save answers s saving = save_result saving
end_save (rolls_back error) s saving = (broken error, s)
end_save (loses_answer error) s saving = (broken error, saving.1)

-- `prismaClosedPeriodNotificationRepository`
abbrev pub database_deliveries :
    (DeliveryWrite → SaveFate) → ℕ → ℕ → ℕ → DeliveryRepository DeliveryTables
database_deliveries fate now claimed_at saved_at = record {
  claim_delivery = claim_delivery claimed_at;
  claim_delivery_for_reconciliation = claim_delivery_for_reconciliation claimed_at;
  get_delivery = find_delivery_record;
  get_period = get_period;
  resolve_delivery = λ action. resolve_delivery action now saved_at;
  save_delivery = λ write s. end_save (fate write) s (save_delivery saved_at write s);
}
