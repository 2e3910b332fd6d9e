-- ===== src/Outbox/Initial/Accounts.antt =====
-- What the result of processDiscordInitialClaim of src/lib/discord-reservation-outbox-initial.ts tells
-- of the calls that were made.
use info_room_reservation_si.Prelude.{
  ℕ, ◌≡◌, Bool, true, false, not, ◌&&◌, ◌||◌, some, List, [], count, any, arith, ◌==◌,
}
use info_room_reservation_si.Effects.{Awaited, returned, thrown, World, continue}
use info_room_reservation_si.Outbox.{DeliveryResult}
use info_room_reservation_si.Outbox.Initial.{
  Rest, done, webhook_rest, post_rest, prepare, run_rest, process_discord_initial_claim,
  deliver_initial_post, finish_webhook_delivery, mark_pending_review,
}
use info_room_reservation_si.Outbox.InitialContracts.{
  InitialDependencies, InitialSendClaim, InitialCall, began_post, posted, sent_webhook,
  saved_success, InitialClaimResult, retried, review, terminal, OperationsRepository,
}
use info_room_reservation_si.Outbox.Initial.Messages.{is_message, is_maybe_sent, is_retry}

abbrev is_posted : InitialCall → Bool
is_posted (posted answer) = true
is_posted _ = false

abbrev is_posted_as_sent : InitialCall → Bool
is_posted_as_sent (posted (returned (DeliveryResult.sent id))) = true
is_posted_as_sent _ = false

abbrev is_saved_as_sent : InitialCall → Bool
is_saved_as_sent (saved_success input (returned true)) = true
is_saved_as_sent _ = false

abbrev is_webhook : InitialCall → Bool
is_webhook (sent_webhook answer) = true
is_webhook _ = false

abbrev pub is_begun : InitialCall → Bool
is_begun (began_post (returned true)) = true
is_begun _ = false

abbrev pub fenced : List InitialCall → Bool
fenced calls = not (any is_posted calls) || any is_begun calls

-- Sent: posted and saved so. Retried: a failure is saved to retry, and no message may be out. For
-- review: no webhook was sent and no success was saved. Terminal: nothing was posted. Thrown: no
-- message at all.
abbrev pub accounts : Awaited InitialClaimResult → List InitialCall → Bool
accounts (returned InitialClaimResult.sent) calls =
    any is_posted_as_sent calls && any is_saved_as_sent calls
accounts (returned retried) calls = any is_retry calls && not (any is_maybe_sent calls)
accounts (returned review) calls = not (any is_webhook calls) && not (any is_saved_as_sent calls)
accounts (returned terminal) calls = not (any is_posted calls)
accounts (thrown message) calls = count is_message calls == 0

abbrev IsFresh : List InitialCall → Type 0
IsFresh calls =
    (any is_posted calls ≡ false)
    × (any is_webhook calls ≡ false)
    × (any is_saved_as_sent calls ≡ false)
    × (any is_maybe_sent calls ≡ false)
    × (count is_message calls ≡ 0)

module _ {S : Type 0} (dependencies : InitialDependencies S) (claim : InitialSendClaim)
    (now : ℕ) where
  abbrev Accounts : Awaited InitialClaimResult × World S InitialCall → Type 0
  Accounts (result, w) = accounts result w.calls ≡ true

  abbrev IsAccounted : Awaited Rest × World S InitialCall → Type 0
  IsAccounted (returned (done result), w) = accounts (returned result) w.calls ≡ true
  IsAccounted (returned (webhook_rest snapshot settings), w) = IsFresh w.calls
  IsAccounted (returned (post_rest snapshot config epoch), w) = IsFresh w.calls
  IsAccounted (thrown message, w) = count is_message w.calls ≡ 0

  module _ (repository : OperationsRepository S)
      (present : dependencies.operations ≡ some repository) where
    abbrev IsBegun : Awaited Rest × World S InitialCall → Type 0
    IsBegun (returned (done result), w) = any is_posted w.calls ≡ false
    IsBegun (returned (webhook_rest snapshot settings), w) = any is_posted w.calls ≡ false
    IsBegun (returned (post_rest snapshot config epoch), w) = any is_begun w.calls ≡ true
    IsBegun (thrown message, w) = any is_posted w.calls ≡ false

    prepare-IsBegun :
        (s : S) → IsBegun (prepare dependencies claim now (record { state = s; calls = [] }))
    unfolding prepare mark_pending_review
    prepare-IsBegun s = ground arith

    run_rest-fenced :
        (r : Awaited Rest × World S InitialCall)
        → IsBegun r
        → fenced (continue (run_rest dependencies claim now) r).1.calls ≡ true
    unfolding deliver_initial_post finish_webhook_delivery mark_pending_review
    run_rest-fenced (returned (done result), w) e = ground arith
    run_rest-fenced (returned (webhook_rest snapshot settings), w) e = ground arith
    run_rest-fenced (returned (post_rest snapshot config epoch), w) e = ground arith
    run_rest-fenced (thrown message, w) e = ground arith

    -- Where the repository keeps operations, a message is posted only after the post was begun there.
    pub process_discord_initial_claim-fenced :
        (s : S)
        → fenced
            (process_discord_initial_claim dependencies claim now
              (record { state = s; calls = [] })).1.calls
          ≡ true
    unfolding process_discord_initial_claim
    process_discord_initial_claim-fenced s =
        run_rest-fenced (prepare dependencies claim now (record { state = s; calls = [] }))
          (prepare-IsBegun s)
