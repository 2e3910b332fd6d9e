-- ===== src/Outbox/Initial.antt =====
-- `processDiscordInitialClaim` of src/lib/discord-reservation-outbox-initial.ts over any repository,
-- bot and webhook. The payloads of messages are left to the bot, which is given what they are built
-- from.
pub mod Messages
pub mod Accounts
use info_room_reservation_si.Prelude.{
  ℕ, ◌+◌, ◌-◌, Bool, true, false, not, Option, none, some, List, [], ◌∷◌, ◌++◌, Text, codes, length,
  take, text_eq, leb, ◌&&◌, drop, if◌then◌else◌,
}
use info_room_reservation_si.DiscordRepair.{
  DiscordOperationsControlState, DiscordOperationFenceResult, allowed, disabled, draining,
  stale_epoch, initial_post, evaluate_discord_operation_fence,
}
use info_room_reservation_si.Effects.{
  Awaited, returned, thrown, World, Operation, Action, pure, look, call, ◌>>=◌, ◌>>◌, try,
}
use info_room_reservation_si.Outbox.{
  DiscordReservationSnapshot, SnapshotResult, not_found, ready, stale, DeliveryResult, failed,
  unknown, ApplicationConfig, ConfigRead, configured, unconfigured, invalid, broken,
}
use info_room_reservation_si.Outbox.InitialContracts.{
  InitialSendClaim, InitialFailureInput, InitialSuccessInput, BeginPostInput, WebhookResult,
  webhook_sent, webhook_disabled, webhook_missing, webhook_failed, OperationsRepository,
  InitialDependencies, InitialCall, began_post, posted, began_webhook, sent_webhook, saved_failure,
  saved_success, marked_review, InitialClaimResult, retried, review, sent, terminal,
}

abbrev pub started_suffix : Text
started_suffix = codes "_STARTED"

-- `outcome.endsWith("_STARTED")`, and the outcome without that end.
unfoldable pub is_started : Text → Bool
is_started outcome =
    leb 8 (length outcome) && text_eq (drop (length outcome - 8) outcome) started_suffix

abbrev pub interrupted : Text → Text
interrupted outcome = take (length outcome - 8) outcome ++ codes "_INTERRUPTED"

-- The start of an outcome, `WEBHOOK`, and the outcomes of a webhook's answers.
abbrev pub webhook_outcome : WebhookResult → Text × Text
webhook_outcome webhook_sent = ([], codes "WEBHOOK_SENT")
webhook_outcome (webhook_failed message) = (message, codes "WEBHOOK_FAILED")
webhook_outcome webhook_disabled = (codes "disabled", codes "WEBHOOK_DISABLED")
webhook_outcome webhook_missing = (codes "webhook_missing", codes "WEBHOOK_WEBHOOK_MISSING")

abbrev pub failure_of : InitialSendClaim → ℕ → Text → Text → Bool → InitialFailureInput
failure_of claim now error outcome retryable = record {
  attempts = claim.attempts;
  claim_id = claim.claim_id;
  error = error;
  now = now;
  outcome = outcome;
  reservation_id = claim.reservation_id;
  retryable = retryable;
}

-- What `processDiscordInitialClaim` does once it has left its `try`, since it returns the promises of
-- these without awaiting them: nothing, the webhook, or the post.
pub data Rest : Type 0 where
  done : InitialClaimResult → Rest
  webhook_rest : DiscordReservationSnapshot → Bool → Rest
  post_rest : DiscordReservationSnapshot → ApplicationConfig → ℕ → Rest

abbrev pub begin_input : InitialSendClaim → ℕ → ℕ → BeginPostInput
begin_input claim epoch now = record {
  boundary = codes "INITIAL_CREATE";
  claim_id = claim.claim_id;
  deadline_at = now + 10000;
  epoch = epoch;
  nonce = claim.nonce;
  operation_id = claim.claim_id;
  reservation_id = claim.reservation_id;
}

abbrev pub success_of : InitialSendClaim → ApplicationConfig → Text → ℕ → ℕ → InitialSuccessInput
success_of claim config message_id epoch now = record {
  channel_id = config.channel_id;
  claim_id = claim.claim_id;
  guild_id = config.guild_id;
  message_id = message_id;
  rendered_source_epoch = epoch;
  reservation_id = claim.reservation_id;
  sent_at = now;
}

module _ {S : Type 0} (dependencies : InitialDependencies S) (claim : InitialSendClaim)
    (now : ℕ) where
  abbrev pub Step : Type 0 → Type 0
  Step A = Action S InitialCall A

  abbrev pub save_failure : Text → Text → Bool → Step Bool
  save_failure error outcome retryable =
      call (saved_failure (failure_of claim now error outcome retryable))
        (dependencies.save_initial_send_failure (failure_of claim now error outcome retryable))

  -- `saveTerminalInitial`
  abbrev pub save_terminal_initial : Text → Step Bool
  save_terminal_initial outcome = save_failure outcome outcome false

  -- What `markPendingReview` does, which never throws.
  abbrev pub mark_pending_review_by : Option (OperationsRepository S) → Text → Step Bool
  mark_pending_review_by none reason = pure false
  mark_pending_review_by (some repository) reason =
      try
        (call (marked_review reason)
          (repository.mark_initial_send_pending_review claim.claim_id reason claim.reservation_id))
        (λ message. pure false)

  unfoldable pub mark_pending_review : Text → Step Bool
  mark_pending_review reason = mark_pending_review_by dependencies.operations reason

  abbrev pub review_as : Text → Step InitialClaimResult
  review_as reason = mark_pending_review reason >> pure review

  abbrev pub review_unless : InitialClaimResult → Bool → Step InitialClaimResult
  review_unless result true = pure result
  review_unless result false = review_as (codes "RESULT_PERSISTENCE_FAILED")

  abbrev pub after_delivery : ApplicationConfig → ℕ → DeliveryResult → Step InitialClaimResult
  after_delivery config epoch (DeliveryResult.sent message_id) = do
    saved ←
        call (saved_success (success_of claim config message_id epoch now))
          (dependencies.save_initial_send_success (success_of claim config message_id epoch now))
    review_unless InitialClaimResult.sent saved
  after_delivery config epoch (unknown code message) = review_as (codes "UNKNOWN")
  after_delivery config epoch (failed code message) = do
    saved ← save_failure message (codes "FAILED") true
    review_unless retried saved

  unfoldable pub deliver_initial_post :
      DiscordReservationSnapshot → ApplicationConfig → ℕ → Step InitialClaimResult
  deliver_initial_post snapshot config epoch =
      try
        (do
          delivery ← call posted (
              dependencies.create_channel_message config.channel_id snapshot config.bot_token epoch
                claim.reservation_id)
          after_delivery config epoch delivery)
        (λ message. review_as (codes "RESULT_PERSISTENCE_FAILED"))

  abbrev pub save_webhook_outcome : Text × Text → Step InitialClaimResult
  save_webhook_outcome (error, outcome) = save_failure error outcome false >> pure terminal

  abbrev pub after_webhook_begin :
      DiscordReservationSnapshot → Bool → Option Text → Bool → Step InitialClaimResult
  after_webhook_begin snapshot settings url false = pure terminal
  after_webhook_begin snapshot settings url true =
      try
        (do
          result ← call sent_webhook (dependencies.send_webhook snapshot settings url)
          save_webhook_outcome (webhook_outcome result))
        (λ message.
          try (save_webhook_outcome (message, codes "WEBHOOK_INTERRUPTED"))
            (λ again. pure terminal))

  unfoldable pub finish_webhook_delivery :
      DiscordReservationSnapshot → Bool → Step InitialClaimResult
  finish_webhook_delivery snapshot settings = do
    url ← look dependencies.get_webhook_url
    started ← call began_webhook (
        dependencies.begin_initial_send_terminal_delivery claim.claim_id (codes "WEBHOOK_STARTED")
          claim.reservation_id)
    after_webhook_begin snapshot settings url started

  abbrev pub finish_as : InitialClaimResult → Text → Step Rest
  finish_as result outcome = save_terminal_initial outcome >> pure (done result)

  abbrev pub retry_as : Text → Text → Step Rest
  retry_as error outcome = save_failure error outcome true >> pure (done retried)

  abbrev pub read_control : Option (OperationsRepository S) → Step DiscordOperationsControlState
  read_control none = pure (record { enabled = true; epoch = 0; pending_remote_cleanup = false })
  read_control (some repository) = look repository.read_operations_control

  abbrev pub begin_post : Option (OperationsRepository S) → ℕ → Step Bool
  begin_post none epoch = pure true
  begin_post (some repository) epoch =
      call began_post (repository.begin_initial_send_post (begin_input claim epoch now))

  abbrev pub after_begin : DiscordReservationSnapshot → ApplicationConfig → ℕ → Bool → Step Rest
  after_begin snapshot config epoch true = pure (post_rest snapshot config epoch)
  after_begin snapshot config epoch false =
      mark_pending_review (codes "POSTING_CAS_REJECTED") >> pure (done review)

  abbrev pub after_fence :
      DiscordReservationSnapshot → ApplicationConfig → DiscordOperationFenceResult → Step Rest
  after_fence snapshot config (allowed epoch) =
      begin_post dependencies.operations epoch >>= after_begin snapshot config epoch
  after_fence snapshot config disabled = retry_as (codes "disabled") (codes "DISABLED")
  after_fence snapshot config draining = retry_as (codes "draining") (codes "DRAINING")
  after_fence snapshot config (stale_epoch actual expected) =
      retry_as (codes "stale_epoch") (codes "STALE_EPOCH")

  abbrev pub after_config : DiscordReservationSnapshot → Bool → ConfigRead → Step Rest
  after_config snapshot settings (configured config) = do
    control ← read_control dependencies.operations
    after_fence snapshot config
        (evaluate_discord_operation_fence control control.epoch initial_post)
  after_config snapshot settings unconfigured = pure (webhook_rest snapshot settings)
  after_config snapshot settings (invalid message) =
      finish_as terminal (codes "SKIPPED_CONFIG_INVALID")
  after_config snapshot settings (broken message) = λ w. (thrown message, w)

  abbrev pub unless_started : Option Text → Step Rest → Step Rest
  unless_started none next w = next w
  unless_started (some outcome) next w =
      if is_started outcome then finish_as terminal (interrupted outcome) w else next w

  abbrev pub after_load : SnapshotResult → Bool → Step Rest
  after_load not_found settings = finish_as terminal (codes "SKIPPED_NOT_FOUND")
  after_load (stale snapshot) settings = finish_as terminal (codes "SKIPPED_STALE")
  after_load (ready snapshot) false = finish_as terminal (codes "SKIPPED_DISABLED")
  after_load (ready snapshot) true =
      unless_started claim.outcome
        (λ w. after_config snapshot true (dependencies.get_application_config w.state) w)

  -- The `try`, and its `catch`.
  unfoldable pub prepare : Step Rest
  prepare =
      try
        (do
          result ← look (dependencies.load_snapshot claim.reservation_id)
          settings ← look dependencies.get_notification_settings
          after_load result settings)
        (λ message. save_failure message (codes "UNEXPECTED_ERROR") true >> pure (done retried))

  abbrev pub run_rest : Rest → Step InitialClaimResult
  run_rest (done result) = pure result
  run_rest (webhook_rest snapshot settings) = finish_webhook_delivery snapshot settings
  run_rest (post_rest snapshot config epoch) = deliver_initial_post snapshot config epoch

  unfoldable pub process_discord_initial_claim : Step InitialClaimResult
  process_discord_initial_claim = prepare >>= run_rest
