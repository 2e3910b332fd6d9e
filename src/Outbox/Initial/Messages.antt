-- ===== src/Outbox/Initial/Messages.antt =====
-- How many messages processDiscordInitialClaim of src/lib/discord-reservation-outbox-initial.ts sends,
-- and when it has the claim retried.
use info_room_reservation_si.Prelude.{ℕ, ◌≤◌, ◌≡◌, Bool, true, false, ◌&&◌, List, count, any}
use info_room_reservation_si.Effects.{Awaited, returned, thrown, World}
use info_room_reservation_si.Outbox.{DeliveryResult, failed, unknown}
use info_room_reservation_si.Outbox.Initial.{Rest, done, webhook_rest, post_rest}
use info_room_reservation_si.Outbox.InitialContracts.{
  InitialDependencies, InitialSendClaim, InitialCall, posted, sent_webhook, saved_failure,
}

-- A message that goes out, or may.
abbrev pub is_message : InitialCall → Bool
is_message (posted answer) = true
is_message (sent_webhook answer) = true
is_message _ = false

-- A message of which Discord has not said that it failed.
abbrev pub is_maybe_sent : InitialCall → Bool
is_maybe_sent (posted (returned (failed code message))) = false
is_maybe_sent (posted (returned (unknown code message))) = true
is_maybe_sent (posted (returned (DeliveryResult.sent id))) = true
is_maybe_sent (posted (thrown message)) = true
is_maybe_sent (sent_webhook answer) = true
is_maybe_sent _ = false

-- A failure that is saved so that the claim is taken again.
abbrev pub is_retry : InitialCall → Bool
is_retry (saved_failure input answer) = input.retryable
is_retry _ = false

abbrev pub IsQuiet : List InitialCall → Type 0
IsQuiet calls =
    (count is_message calls ≡ 0) × (any is_retry calls ≡ false) × (any is_maybe_sent calls ≡ false)

abbrev pub IsCareful : List InitialCall → Type 0
IsCareful calls =
    (count is_message calls ≤ 1) × (any is_maybe_sent calls && any is_retry calls ≡ false)

module _ {S : Type 0} (dependencies : InitialDependencies S) (claim : InitialSendClaim)
    (now : ℕ) where
  -- Leaving the `try` with more to do, no message has gone out and nothing is retried.
  abbrev IsPrepared : Awaited Rest × World S InitialCall → Type 0
  IsPrepared (returned (done result), w) = IsCareful w.calls
  IsPrepared (returned (webhook_rest snapshot settings), w) = IsQuiet w.calls
  IsPrepared (returned (post_rest snapshot config epoch), w) = IsQuiet w.calls
  IsPrepared (thrown message, w) = IsCareful w.calls
