-- ===== src/Outbox/Payload.antt =====
-- `syncPayload` of src/lib/discord-reservation-outbox-sync.ts: what a message is built from.
use info_room_reservation_si.Prelude.{ℕ, Option, none, some, Text, codes, text_eq, if◌then◌else◌}
use info_room_reservation_si.Reservations.{ReservationStatus}
use info_room_reservation_si.Outbox.{DiscordReservationSnapshot}

-- `DiscordMessageSyncState`; fields that are undefined or null are `none`
pub record SyncState : Type 0 where
  pub cancellation_reason : Option Text
  pub decided_at : Option ℕ
  pub decision : Option Text
  pub decision_discord_actor_id : Option Text
  pub decision_local_actor_id : Option Text
  pub nonce : Option Text
  pub operation_intent : Option Text
  pub rendered_source_epoch : Option ℕ

pub record SyncAction : Type 0 where
  pub actor : Text
  pub at : ℕ
  pub label : Text
  pub reason : Option Text

-- The message that is built: cancelled, with its reason, and the others.
pub data SyncMessage : Type 0 where
  cancelled_message : Text → SyncMessage
  no_show_message accepted_message initial_message stale_message : SyncMessage

pub record SyncPayload : Type 0 where
  pub action : Option SyncAction
  pub custom_id_secret : Option Text
  pub message : SyncMessage
  pub rendered_epoch : ℕ
  pub snapshot : DiscordReservationSnapshot
  pub source_identity : Option Text

module _ {A : Type 0} where
  -- `??`
  abbrev pub or_else : Option A → Option A → Option A
  or_else none b = b
  or_else (some a) b = some a

  abbrev pub or_value : Option A → A → A
  or_value none b = b
  or_value (some a) b = a

abbrev known_label : Text → Option Text
known_label intent =
    if text_eq intent (codes "ACCEPT")
    then some (codes "예약 수락")
    else if text_eq intent (codes "REJECT")
    then some (codes "예약 거절")
    else if text_eq intent (codes "ADMIN_CANCEL")
    then some (codes "관리자 취소")
    else if text_eq intent (codes "NO_SHOW")
    then some (codes "노쇼")
    else none

unfoldable pub operation_label : Option Text → Option Text
operation_label none = none
operation_label (some intent) = known_label intent

abbrev pub status_label : ReservationStatus → Text
status_label ReservationStatus.no_show = codes "노쇼"
status_label ReservationStatus.cancelled = codes "관리자 취소"
status_label ReservationStatus.confirmed = codes "예약 수락"

abbrev pub action_of :
    Option Text → Option ℕ → DiscordReservationSnapshot → SyncState → Option SyncAction
action_of none at snapshot state = none
action_of (some actor) none snapshot state = none
action_of (some actor) (some at) snapshot state = some (record {
  actor = actor;
  at = at;
  label = or_value (operation_label state.operation_intent) (status_label snapshot.status);
  reason = state.cancellation_reason;
})

unfoldable pub sync_action : DiscordReservationSnapshot → SyncState → Option SyncAction
sync_action snapshot state =
    action_of (or_else state.decision_discord_actor_id state.decision_local_actor_id)
      state.decided_at snapshot state

abbrev pub decided_message : Option Text → SyncMessage
decided_message none = initial_message
decided_message (some decision) =
    if text_eq decision (codes "ACCEPTED") then accepted_message else stale_message

abbrev pub message_of : ReservationStatus → SyncState → SyncMessage
message_of ReservationStatus.cancelled state =
    cancelled_message (or_value state.cancellation_reason (codes "취소 사유 미기록"))
message_of ReservationStatus.no_show state = no_show_message
message_of ReservationStatus.confirmed state = decided_message state.decision

-- The secret and the epoch that are given go before those of the environment and of the state.
unfoldable pub sync_payload :
    Option Text → DiscordReservationSnapshot → SyncState → Option Text → Option ℕ → SyncPayload
sync_payload environment_token snapshot state secret epoch = record {
  action = sync_action snapshot state;
  custom_id_secret = or_else secret environment_token;
  message = message_of snapshot.status state;
  rendered_epoch = or_value epoch (or_value state.rendered_source_epoch 0);
  snapshot = snapshot;
  source_identity = state.nonce;
}
