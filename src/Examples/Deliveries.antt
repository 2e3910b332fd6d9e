-- ===== src/Examples/Deliveries.antt =====
-- Lists of closed periods that are sent.
use info_room_reservation_si.Prelude.{
  ℕ, ◌+◌, ◌≤◌, ◌≡◌, refl, true, false, none, [], ◌∷◌, Text, codes, text_eq, text_lt, update_where,
  arith,
}
use info_room_reservation_si.StudyPeriods.{eighth, period_eq}
use info_room_reservation_si.ClosedPeriods.{
  closed_list_notification_kind, is_closed_period_for_notification,
}
use info_room_reservation_si.PeriodSettings.{
  PeriodSetting, resolve_effective_period_setting, find_setting, build_default_period_setting,
}
use info_room_reservation_si.Deliveries.{
  DeliveryRow, DeliveryTables, DeliveryWrite, FinalStatus, find_delivery_record, get_period,
  to_delivery_record, parse_delivery_status,
}
use info_room_reservation_si.Calendar.{to_kst_date}
use info_room_reservation_si.PeriodWindow.{is_period_window_closed, get_period_window_state}
use info_room_reservation_si.Deliveries.Table.{claim_delivery, save_delivery}
use info_room_reservation_si.Deliveries.Cells.{cell, IsUniqueFor, claim_cell, claim_reply}
use info_room_reservation_si.Deliveries.Refines.{claim_delivery-refines}
use info_room_reservation_si.Deliveries.Service.{
  send_closed_period, deliver_claimed_period, save_error,
}
use info_room_reservation_si.Deliveries.Contracts.{
  SendResult, returned, SendRequest, network_error, other_error, classify_discord_webhook_error,
}
use info_room_reservation_si.Deliveries.Database.{
  SaveFate, answers, rolls_back, database_deliveries,
}
use info_room_reservation_si.Deliveries.Settled.{IsOpenFate}
use info_room_reservation_si.Deliveries.Once.{again, sent_once, send_closed_period-once}

abbrev day : Text
day = codes "1970-01-01"

abbrev waiting : DeliveryRow
waiting = record {
  attempts = 0;
  date = day;
  failure_code = none;
  kind = closed_list_notification_kind;
  last_error = none;
  message_ids = [];
  next_attempt_at = none;
  sent_at = none;
  status = codes "PENDING";
  study_period = eighth;
  updated_at = 5;
}

abbrev tables : DeliveryTables
tables = record { deliveries = waiting ∷ []; period_settings = [] }

abbrev to_discord : PeriodSetting → SendResult
to_discord setting = returned (codes "m1" ∷ [])

-- Two in the morning of the next day in Korea
abbrev late : ℕ
late = 61200000

-- The save as sent does not reach the database.
abbrev drops : DeliveryWrite → SaveFate
drops write = elim write.status [
  | FinalStatus.sent ↦ rolls_back (network_error (codes "no connection"))
  | FinalStatus.failed ↦ answers
  | FinalStatus.unknown ↦ answers
]

drops-open :
    (write : DeliveryWrite) → write.status ≡ FinalStatus.sent → IsOpenFate (drops write) late
unfolding classify_discord_webhook_error
drops-open write e = rw e refl

abbrev commits : DeliveryWrite → SaveFate
commits write = answers

abbrev keep : Text → Text
keep message = message

abbrev wanted : SendRequest
wanted = record { date = day; manual = false; study_period = eighth }

tables-IsUniqueFor : IsUniqueFor day eighth tables
unfolding text_eq period_eq
tables-IsUniqueFor = omega arith

abbrev sent_calls : ℕ
sent_calls = (sent_once drops to_discord keep late 10 20 wanted tables).calls

claim_delivery-refines_example :
    ((claim_delivery 10 day eighth tables).0 ≡ claim_reply day eighth 10 (cell day eighth tables))
    × (cell day eighth (claim_delivery 10 day eighth tables).1
        ≡ claim_cell day eighth 10 (cell day eighth tables))
claim_delivery-refines_example = claim_delivery-refines day eighth tables tables-IsUniqueFor 10

send_closed_period-once_example :
    (sent_once drops to_discord keep late 10 20 wanted tables).calls
      + (send_closed_period
          (database_deliveries commits (late + 1) 30 40)
          to_discord
          keep
          (late + 1)
          (again wanted true)
          (sent_once drops to_discord keep late 10 20 wanted tables).state).calls
    ≤ 1
send_closed_period-once_example =
    send_closed_period-once drops to_discord keep late 10 20 wanted tables drops-open
      (λ setting. tt) tables-IsUniqueFor true commits to_discord (late + 1) 30 40

-- Where the error that rolls back the save as sent does not leave the outcome open, the list is
-- recorded as failed and a later automatic run sends it again.
abbrev refuses : DeliveryWrite → SaveFate
refuses write = elim write.status [
  | FinalStatus.sent ↦ rolls_back (other_error (codes "too many connections"))
  | FinalStatus.failed ↦ answers
  | FinalStatus.unknown ↦ answers
]

abbrev sent_again : ℕ
sent_again =
    (sent_once refuses to_discord keep late 10 20 wanted tables).calls
    + (send_closed_period (database_deliveries commits (late + 60001) 30 40) to_discord keep
        (late + 60001) (again wanted false)
        (sent_once refuses to_discord keep late 10 20 wanted tables).state).calls

sent_again_twice : sent_again ≡ 2
unfolding send_closed_period deliver_claimed_period save_error claim_delivery save_delivery
    find_delivery_record get_period to_delivery_record parse_delivery_status
    classify_discord_webhook_error text_eq period_eq resolve_effective_period_setting find_setting
    build_default_period_setting is_closed_period_for_notification text_lt to_kst_date
    is_period_window_closed get_period_window_state update_where
sent_again_twice = refl
