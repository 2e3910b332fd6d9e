-- ===== src/Deliveries/Once.antt =====
-- The list of a closed period is sent at most once (src/lib/closed-period-notification-service.ts with
-- the repository of src/lib/prisma-notification-repository.ts).
use info_room_reservation_si.Prelude.{ℕ, ◌+◌, ◌≤◌, ◌≡◌, inl, inr, Bool, Text, arith}
use info_room_reservation_si.PeriodSettings.{PeriodSetting}
use info_room_reservation_si.Deliveries.{DeliveryTables, DeliveryWrite, FinalStatus}
use info_room_reservation_si.Deliveries.Cells.{IsUniqueFor}
use info_room_reservation_si.Deliveries.Service.{send_closed_period}
use info_room_reservation_si.Deliveries.Contracts.{SendResult, SendRequest, SendRun}
use info_room_reservation_si.Deliveries.Database.{SaveFate, database_deliveries}
use info_room_reservation_si.Deliveries.Sending.{send_closed_period-calls, send_closed_period-skips}
use info_room_reservation_si.Deliveries.Settled.{
  IsMaybeSent, IsOpenFate, send_closed_period-settles,
}

-- A second request for the same period, by hand or not, at any time and with any sender.
abbrev pub again : SendRequest → Bool → SendRequest
again request manual = record request { manual = manual }

module _ (fate : DeliveryWrite → SaveFate) (sender : PeriodSetting → SendResult)
    (redact : Text → Text) (now claimed_at saved_at : ℕ) (request : SendRequest)
    (s : DeliveryTables) where
  abbrev pub sent_once : SendRun DeliveryTables
  sent_once =
      send_closed_period (database_deliveries fate now claimed_at saved_at) sender redact now
        request s

  -- If the sender returns or leaves the outcome open for every period, and every error that rolls
  -- back a save as sent leaves it open too, where the table has at most one delivery of the period,
  -- then this request and any later one for it, by hand or not, at any time, with any sender and
  -- however its saves end, together call their senders at most once. Other saves of this request
  -- may be rolled back with any error, and any save may commit and lose its answer.
  pub send_closed_period-once :
      ((write : DeliveryWrite) → write.status ≡ FinalStatus.sent → IsOpenFate (fate write) now)
      → ((setting : PeriodSetting) → IsMaybeSent (sender setting) now)
      → IsUniqueFor request.date request.study_period s
      → (manual : Bool) (refate : DeliveryWrite → SaveFate) (resender : PeriodSetting → SendResult)
        (later claimed_later saved_later : ℕ)
      → sent_once.calls
          + (send_closed_period
              (database_deliveries refate later claimed_later saved_later)
              resender
              redact
              later
              (again request manual)
              sent_once.state).calls
        ≤ 1
  send_closed_period-once opens maybe unique manual refate resender later claimed_later
        saved_later =
      elim (send_closed_period-settles fate sender redact now claimed_at saved_at request manual
        later s opens maybe unique) [
          | inl none_sent ↦ ground (
            arith,
            none_sent,
            send_closed_period-calls (database_deliveries refate later claimed_later saved_later)
                resender redact later (again request manual) sent_once.state,
          )
          | inr settled ↦ ground (
            arith,
            send_closed_period-calls (database_deliveries fate now claimed_at saved_at) sender
                redact now request s,
            (send_closed_period-skips (database_deliveries refate later claimed_later saved_later)
                resender redact later (again request manual) sent_once.state settled).0,
          )
        ]
