-- ===== src/Examples/Outbox.antt =====
-- Claims of the outbox that are processed.
use info_room_reservation_si.Prelude.{ℕ, ◌≤◌, ◌≡◌, refl, true, false, none, some, [], codes, count}
use info_room_reservation_si.StudyPeriods.{eighth}
use info_room_reservation_si.Reservations.{ReservationStatus}
use info_room_reservation_si.DiscordRepair.{evaluate_discord_operation_fence}
use info_room_reservation_si.Effects.{returned, thrown, World}
use info_room_reservation_si.Outbox.{DiscordReservationSnapshot, ready, unknown, configured}
use info_room_reservation_si.Outbox.Initial.{
  process_discord_initial_claim, prepare, deliver_initial_post, mark_pending_review,
}
use info_room_reservation_si.Outbox.InitialContracts.{
  InitialDependencies, OperationsRepository, InitialSendClaim, InitialCall, webhook_sent,
}
use info_room_reservation_si.Outbox.Initial.Messages.{is_message}
use info_room_reservation_si.Outbox.Initial.Accounts.{
  accounts, fenced, process_discord_initial_claim-fenced,
}
use info_room_reservation_si.Outbox.Sync.{process_discord_sync_claim}
use info_room_reservation_si.Outbox.SyncContracts.{
  SyncDependencies, SyncOperations, SyncClaim, SyncCall,
}
use info_room_reservation_si.Outbox.Sync.Edits.{is_edit, process_discord_sync_claim-edits}
use info_room_reservation_si.Outbox.Sync.Leases.{is_leased, process_discord_sync_claim-is_leased}
use info_room_reservation_si.Outbox.Sync.Edits

abbrev shown : DiscordReservationSnapshot
shown = record {
  capacity = 20;
  close_time = codes "18:00";
  confirmed_count = 1;
  date = codes "2026-03-02";
  id = codes "r1";
  name = codes "Kim";
  reason = none;
  status = ReservationStatus.confirmed;
  student_number = codes "10101";
  study_period = eighth;
  user_id = codes "u1";
}

abbrev operations_kept : OperationsRepository ℕ
operations_kept = record {
  begin_initial_send_post = λ input s. (returned true, s);
  mark_initial_send_pending_review = λ claim reason reservation s. (returned true, s);
  read_operations_control =
      λ s. (returned (record { enabled = true; epoch = 3; pending_remote_cleanup = false }), s);
}

-- Discord does not say whether the message went out.
abbrev silent_discord : InitialDependencies ℕ
silent_discord = record {
  begin_initial_send_terminal_delivery = λ claim outcome reservation s. (returned true, s);
  create_channel_message = λ channel snapshot secret epoch reservation s.
      (returned (unknown (codes "discord_timeout") (codes "timeout")), s);
  get_application_config = λ s.
      configured (record { bot_token = codes "t"; channel_id = codes "c"; guild_id = codes "g" });
  get_notification_settings = λ s. (returned true, s);
  get_webhook_url = λ s. (returned none, s);
  load_snapshot = λ reservation s. (returned (ready shown), s);
  operations = some operations_kept;
  save_initial_send_failure = λ input s. (returned true, s);
  save_initial_send_success = λ input s. (returned true, s);
  send_webhook = λ snapshot settings url s. (returned webhook_sent, s);
}

abbrev first_claim : InitialSendClaim
first_claim = record {
  attempts = 1;
  claim_id = codes "k";
  nonce = codes "n";
  outcome = none;
  reservation_id = codes "r1";
}

abbrev start : World ℕ InitialCall
start = record { state = 0; calls = [] }

posts_once :
    count is_message (process_discord_initial_claim silent_discord first_claim 9 start).1.calls ≡ 1
unfolding process_discord_initial_claim prepare evaluate_discord_operation_fence
    deliver_initial_post mark_pending_review
posts_once = refl

process_discord_initial_claim-fenced_example :
    fenced (process_discord_initial_claim silent_discord first_claim 9 start).1.calls ≡ true
process_discord_initial_claim-fenced_example =
    process_discord_initial_claim-fenced silent_discord first_claim 9 operations_kept refl 0

abbrev patches_kept : SyncOperations ℕ
patches_kept = record {
  begin_sync_patch = λ input s. (returned true, s);
  mark_sync_pending_review = λ input s. (returned true, s);
  read_operations_control =
      λ s. (returned (record { enabled = true; epoch = 3; pending_remote_cleanup = false }), s);
  save_leased_sync_success = λ input s. (returned true, s);
}

-- Discord fails once the edit is under way.
abbrev failing_discord : SyncDependencies ℕ
failing_discord = record {
  edit_channel_message = λ channel message payload s. (thrown (codes "socket"), s);
  environment_token = none;
  get_application_config = λ s.
      configured (record { bot_token = codes "t"; channel_id = codes "c"; guild_id = codes "g" });
  load_snapshot = λ reservation s. (returned (ready shown), s);
  operations = some patches_kept;
  read_message_sync_state = λ reservation s. (
    returned (
        some (record {
          cancellation_reason = none;
          decided_at = none;
          decision = none;
          decision_discord_actor_id = none;
          decision_local_actor_id = none;
          nonce = none;
          operation_intent = none;
          rendered_source_epoch = none;
        })),
    s,
  );
  save_sync_failure = λ input s. (returned true, s);
  save_sync_success = λ input s. (returned true, s);
}

abbrev sync_claim : SyncClaim
sync_claim = record {
  attempts = 2;
  channel_id = codes "c";
  claim_id = codes "k";
  message_id = codes "m";
  reservation_id = codes "r1";
  revision = 4;
}

abbrev sync_start : World ℕ SyncCall
sync_start = record { state = 0; calls = [] }

process_discord_sync_claim-edits_example :
    (count is_edit (process_discord_sync_claim failing_discord sync_claim 9 sync_start).1.calls ≤ 1)
    × (Edits.accounts 2
          (process_discord_sync_claim failing_discord sync_claim 9 sync_start).0
          (process_discord_sync_claim failing_discord sync_claim 9 sync_start).1.calls
        ≡ true)
process_discord_sync_claim-edits_example =
    process_discord_sync_claim-edits failing_discord sync_claim 9 0

process_discord_sync_claim-is_leased_example :
    is_leased (process_discord_sync_claim failing_discord sync_claim 9 sync_start).1.calls ≡ true
process_discord_sync_claim-is_leased_example =
    process_discord_sync_claim-is_leased failing_discord sync_claim 9 patches_kept refl 0
