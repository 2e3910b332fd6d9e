-- ===== src/Deliveries/Settled.antt =====
-- What the service of src/lib/closed-period-notification-service.ts leaves in the table of
-- src/lib/prisma-notification-repository.ts once the list may have been sent.
use info_room_reservation_si.Prelude.{
  ℕ, ◌≡◌, refl, sym, ◌∙◌, ap, ◌⊎◌, inl, inr, Bool, true, Option, none, some, List, Text, arith,
}
use info_room_reservation_si.StudyPeriods.{StudyPeriod}
use info_room_reservation_si.PeriodSettings.{PeriodSetting}
use info_room_reservation_si.Deliveries.{
  DeliveryRow, DeliveryTables, DeliveryRecord, DeliveryWrite, to_delivery_record,
  find_delivery_record, get_period, FinalStatus,
}
use info_room_reservation_si.Deliveries.Table.{claim_delivery, save_delivery}
use info_room_reservation_si.Deliveries.Cells.{cell, IsUniqueFor, claim_cell, claim_reply}
use info_room_reservation_si.Deliveries.Refines.{
  claim_delivery-refines, claim_delivery-IsUniqueFor, save_delivery-IsUniqueFor,
}
use info_room_reservation_si.Deliveries.Service.{
  delivery_skip, period_skip, send_unless, send_closed_period, deliver_if_claimed,
  deliver_claimed_period, after_save, save_error, error_write, sent_write, outcome_status,
  after_send,
}
use info_room_reservation_si.Deliveries.Contracts.{
  SendResult, returned, thrown, SendError, DeliveryOutcome, classify_discord_webhook_error,
  DeliveryRepository, SendRequest, SkipReason,
}
use info_room_reservation_si.Deliveries.Database.{
  SaveFate, answers, rolls_back, loses_answer, save_result, end_save, database_deliveries,
}
use info_room_reservation_si.Deliveries.Kept.{
  IsClaimedRow, IsSentRow, is_final, save_delivery-skips, save_delivery-IsSentRow, end_save-skips,
  end_save-kept,
}
use info_room_reservation_si.Deliveries.Sending.{skips}

module _ (date : Text) (p : StudyPeriod) (at : ℕ) where
  claim_reply-IsClaimedRow :
      (c : Option DeliveryRow) (delivery : DeliveryRecord)
      → claim_reply date p at c ≡ some delivery
      → (delivery.updated_at ≡ some at) × IsClaimedRow at (claim_cell date p at c)
  unfolding to_delivery_record
  claim_reply-IsClaimedRow none delivery e = ground arith
  claim_reply-IsClaimedRow (some row) delivery e = ground arith

-- The sender did not fail for sure: it returned, or its error leaves the outcome open.
abbrev pub IsMaybeSent : SendResult → ℕ → Type 0
IsMaybeSent (returned message_ids) now = Unit
IsMaybeSent (thrown error) now =
    (classify_discord_webhook_error error now).outcome ≡ DeliveryOutcome.unknown

-- If saving as sent is rolled back, its error leaves the outcome open.
abbrev pub IsOpenFate : SaveFate → ℕ → Type 0
IsOpenFate answers now = Unit
IsOpenFate (loses_answer error) now = Unit
IsOpenFate (rolls_back error) now =
    (classify_discord_webhook_error error now).outcome ≡ DeliveryOutcome.unknown

-- Another request for the period, at any later time.
abbrev pub is_settled_for : SendRequest → Bool → ℕ → DeliveryTables → Bool
is_settled_for request manual later s =
    skips (delivery_skip manual (find_delivery_record request.date request.study_period s) later)

module _ (fate : DeliveryWrite → SaveFate) (sender : PeriodSetting → SendResult)
    (redact : Text → Text) (now claimed_at saved_at : ℕ) (request : SendRequest) (manual : Bool)
    (later : ℕ) where
  abbrev pub repository_at : DeliveryRepository DeliveryTables
  repository_at = database_deliveries fate now claimed_at saved_at

  claim_delivery-claims :
      (s : DeliveryTables)
      → IsUniqueFor request.date request.study_period s
      → (delivery : DeliveryRecord)
      → (claim_delivery claimed_at request.date request.study_period s).0 ≡ some delivery
      → (delivery.updated_at ≡ some claimed_at)
        × IsClaimedRow claimed_at (
            cell request.date request.study_period
              (claim_delivery claimed_at request.date request.study_period s).1)
  claim_delivery-claims s unique delivery e =
      let refined = claim_delivery-refines request.date request.study_period s unique claimed_at in
      rw refined.1 (
        claim_reply-IsClaimedRow request.date request.study_period claimed_at
          (cell request.date request.study_period s) delivery (sym refined.0 ∙ e))

  after_save-state :
      (x : Option DeliveryRecord × DeliveryTables)
      → (after_save repository_at sender redact now request claimed_at (save_result x)).1 ≡ x.1
  after_save-state (none, s) = refl
  after_save-state (some delivery, s) = refl

  abbrev saved_as_sent : List Text → DeliveryWrite
  saved_as_sent message_ids =
      sent_write repository_at sender redact now request claimed_at message_ids

  abbrev saved_error : SendError → DeliveryWrite
  saved_error error =
      error_write repository_at sender redact now request claimed_at
        (classify_discord_webhook_error error now)

  save_error-skips :
      (error : SendError) (s : DeliveryTables)
      → (classify_discord_webhook_error error now).outcome ≡ DeliveryOutcome.unknown
      → IsUniqueFor request.date request.study_period s
      → IsClaimedRow claimed_at (cell request.date request.study_period s)
      → is_settled_for request manual later
          (save_error repository_at sender redact now request claimed_at
            (classify_discord_webhook_error error now)
            s).1
        ≡ true
  unfolding save_error
  save_error-skips error s unknown unique claimed =
      end_save-skips (saved_error error) s saved_at unique (fate (saved_error error)) claimed
        (ap (λ outcome. is_final (outcome_status outcome)) unknown) manual later

  save_error-kept :
      (error : SendError) (s : DeliveryTables)
      → IsUniqueFor request.date request.study_period s
      → IsSentRow (cell request.date request.study_period s)
      → is_settled_for request manual later
          (save_error repository_at sender redact now request claimed_at
            (classify_discord_webhook_error error now)
            s).1
        ≡ true
  unfolding save_error
  save_error-kept error s unique was_sent =
      end_save-kept (saved_error error) s saved_at unique (fate (saved_error error)) was_sent manual
        later

  after_save-skips :
      (end : SaveFate) (message_ids : List Text) (s : DeliveryTables)
      → IsOpenFate end now
      → IsUniqueFor request.date request.study_period s
      → IsClaimedRow claimed_at (cell request.date request.study_period s)
      → is_settled_for request manual later
          (after_save repository_at sender redact now request claimed_at
            (end_save end s (save_delivery saved_at (saved_as_sent message_ids) s))).1
        ≡ true
  after_save-skips answers message_ids s opens unique claimed =
      rw (after_save-state (save_delivery saved_at (saved_as_sent message_ids) s)) (
        save_delivery-skips (saved_as_sent message_ids) s saved_at unique claimed refl manual later)
  after_save-skips (rolls_back error) message_ids s opens unique claimed =
      save_error-skips error s opens unique claimed
  after_save-skips (loses_answer error) message_ids s opens unique claimed =
      save_error-kept error (save_delivery saved_at (saved_as_sent message_ids) s).1
        (save_delivery-IsUniqueFor (saved_as_sent message_ids) s saved_at request.date
          request.study_period unique)
        (save_delivery-IsSentRow (saved_as_sent message_ids) s saved_at unique claimed refl)

  -- Every save as sent that is rolled back leaves the outcome open.
  abbrev pub IsOpen : Type 0
  IsOpen = (write : DeliveryWrite) → write.status ≡ FinalStatus.sent → IsOpenFate (fate write) now

  after_send-skips :
      (sending : SendResult) (s : DeliveryTables)
      → IsOpen
      → IsMaybeSent sending now
      → IsUniqueFor request.date request.study_period s
      → IsClaimedRow claimed_at (cell request.date request.study_period s)
      → is_settled_for request manual later
          (after_send repository_at sender redact now request claimed_at sending s).1
        ≡ true
  after_send-skips (returned message_ids) s opens maybe unique claimed =
      after_save-skips (fate (saved_as_sent message_ids)) message_ids s
        (opens (saved_as_sent message_ids) refl) unique claimed
  after_send-skips (thrown error) s opens maybe unique claimed =
      save_error-skips error s maybe unique claimed

  deliver_if_claimed-skips :
      (period : Option PeriodSetting) (claimed : Option DeliveryRecord × DeliveryTables)
      → IsOpen
      → ((setting : PeriodSetting) → IsMaybeSent (sender setting) now)
      → IsUniqueFor request.date request.study_period claimed.1
      → ((delivery : DeliveryRecord)
          → claimed.0 ≡ some delivery
          → (delivery.updated_at ≡ some claimed_at)
            × IsClaimedRow claimed_at (cell request.date request.study_period claimed.1))
      → ((deliver_if_claimed repository_at sender redact now request period claimed).calls ≡ 0)
        ⊎ (is_settled_for request manual later
              (deliver_if_claimed repository_at sender redact now request period claimed).state
            ≡ true)
  unfolding deliver_claimed_period
  deliver_if_claimed-skips none (none, s) opens maybe unique facts = inl refl
  deliver_if_claimed-skips (some setting) (none, s) opens maybe unique facts = inl refl
  deliver_if_claimed-skips none (some delivery, s) opens maybe unique facts = inl refl
  deliver_if_claimed-skips (some setting) (some delivery, s) opens maybe unique facts =
      rw (facts delivery refl).0 (
        inr (
          after_send-skips (sender setting) s opens (maybe setting) unique (facts delivery refl).1))

  send_unless-settles :
      (first second : Option SkipReason) (s : DeliveryTables)
      → IsOpen
      → ((setting : PeriodSetting) → IsMaybeSent (sender setting) now)
      → IsUniqueFor request.date request.study_period s
      → ((send_unless repository_at sender redact now first second request s).calls ≡ 0)
        ⊎ (is_settled_for request manual later
              (send_unless repository_at sender redact now first second request s).state
            ≡ true)
  send_unless-settles (some reason) second s opens maybe unique = inl refl
  send_unless-settles none (some reason) s opens maybe unique = inl refl
  send_unless-settles none none s opens maybe unique =
      deliver_if_claimed-skips (get_period request.date request.study_period s)
        (claim_delivery claimed_at request.date request.study_period s) opens maybe
        (claim_delivery-IsUniqueFor request.date request.study_period s claimed_at unique)
        (claim_delivery-claims s unique)

  pub send_closed_period-settles :
      (s : DeliveryTables)
      → IsOpen
      → ((setting : PeriodSetting) → IsMaybeSent (sender setting) now)
      → IsUniqueFor request.date request.study_period s
      → ((send_closed_period repository_at sender redact now request s).calls ≡ 0)
        ⊎ (is_settled_for request manual later
              (send_closed_period repository_at sender redact now request s).state
            ≡ true)
  unfolding send_closed_period
  send_closed_period-settles s =
      send_unless-settles (period_skip (get_period request.date request.study_period s) now)
        (delivery_skip request.manual (find_delivery_record request.date request.study_period s)
          now)
        s
