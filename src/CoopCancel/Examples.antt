-- ===== src/CoopCancel/Examples.antt =====
-- A run in which two messages are sent, one is received, and the receiver is dropped.
use cancel_safe_futures.Base.{
  ℕ, ◌≡◌, refl, true, false, if◌then◌else◌, ◌==◌, [], ◌∷◌, none, some, ready, arith,
}
use cancel_safe_futures.CoopCancel.Defs.{
  Waiter, new_pair, cancel, poll_recv, drop_receiver, poll_waiter,
}
use cancel_safe_futures.CoopCancel.System.{
  System, after_cancel, by_cancel, by_recv, by_drop_receiver, Reach, here, next, init,
}
use cancel_safe_futures.CoopCancel.Invariant.{FirstOnly}
use cancel_safe_futures.CoopCancel.Delivery.{poll_recv-Gives}
use cancel_safe_futures.CoopCancel.Told.{Prompt, told, poll_waiter-told}
use cancel_safe_futures.CoopCancel.Results.{
  Reach-FirstOnly, Cancels, cancel-Cancels, IsAmong, first,
}
use cancel_safe_futures.Fmt.Samples.{words}
use cancel_safe_futures.CoopCancel.Debug.{
  debug_receiver, debug_canceler, debug_waiter, debug_payload,
}
use cancel_safe_futures.CoopCancel.Samples.{Numbers, numbered, queued}

abbrev none_alive : Numbers
none_alive = (0, λ k. false)

abbrev waiter : ℕ → Waiter numbered queued
waiter k = record { dropped_receiver = k }

-- Two messages were sent.
abbrev both_queued : System numbered queued
both_queued = record {
  shared = (
    (
      record { message = 7; dropped_sender = 0 } ∷ record { message = 8; dropped_sender = 1 } ∷ [],
      false,
      1,
    ),
    (2, λ k. if k == 1 then true else if k == 0 then true else false),
  );
  cancelers = 1;
  receiver = some (record { first_sender = none });
  waiters = waiter 1 ∷ waiter 0 ∷ [];
  sent = 7 ∷ 8 ∷ [];
  received = [];
}

abbrev two_queued : Reach numbered queued (init numbered queued none_alive) both_queued
unfolding new_pair cancel
two_queued = next (next here (by_cancel 7 0 refl)) (by_cancel 8 0 refl)

-- Then the first one is received.
abbrev after_two : System numbered queued
after_two = record {
  shared = (
    (record { message = 8; dropped_sender = 1 } ∷ [], false, 1),
    (2, λ k. if k == 1 then true else if k == 0 then true else false),
  );
  cancelers = 1;
  receiver = some (record { first_sender = some 0 });
  waiters = waiter 1 ∷ waiter 0 ∷ [];
  sent = 7 ∷ 8 ∷ [];
  received = 7 ∷ [];
}

abbrev two_sent : Reach numbered queued (init numbered queued none_alive) after_two
unfolding poll_recv
two_sent = next two_queued (by_recv (record { first_sender = none }) refl)

poll_recv-Gives_example :
    (poll_recv numbered queued (record { first_sender = none }) both_queued.shared).0
    ≡ ready (some 7)
poll_recv-Gives_example =
    poll_recv-Gives numbered queued none_alive (record { first_sender = none }) two_queued refl tt

-- Then the receiver is dropped, and with it the message in the queue.
abbrev after_drop : System numbered queued
after_drop = record after_two {
  shared = drop_receiver numbered queued (record { first_sender = some 0 }) after_two.shared;
  receiver = none;
}

abbrev dropped : Reach numbered queued (init numbered queued none_alive) after_drop
dropped = next two_sent (by_drop_receiver (record { first_sender = some 0 }) refl)

-- Both waiters finish then.
both_finish :
    ((poll_waiter numbered queued (waiter 0) after_drop.shared.1).0 ≡ ready tt)
    × ((poll_waiter numbered queued (waiter 1) after_drop.shared.1).0 ≡ ready tt)
unfolding poll_waiter drop_receiver
both_finish = (refl, refl)

Reach-FirstOnly_example : FirstOnly after_drop.received after_drop.sent
Reach-FirstOnly_example = Reach-FirstOnly numbered queued none_alive dropped

cancel-Cancels_example :
    Cancels numbered queued false 5 (cancel numbered queued 5 after_drop.shared).0
cancel-Cancels_example = cancel-Cancels numbered queued none_alive 5 dropped

numbered-Prompt : Prompt numbered queued
numbered-Prompt rx s gone = ground (arith, gone)

-- A `cancel` after that fails, and changes the channels once more.
abbrev after_nine : System numbered queued
after_nine = after_cancel numbered queued after_drop 9 (cancel numbered queued 9 after_drop.shared)

abbrev refused : Reach numbered queued (init numbered queued none_alive) after_nine
refused = next dropped (by_cancel 9 0 refl)

among : IsAmong numbered queued (waiter 1) after_nine.waiters
unfolding cancel drop_receiver
among = first

-- The message of the second waiter was still queued when the receiver was dropped.
poll_waiter-told_example :
    (poll_waiter numbered queued (waiter 1) after_nine.shared.1).0
    ≡ told numbered queued after_nine.receiver
poll_waiter-told_example =
    poll_waiter-told numbered queued numbered-Prompt none_alive (waiter 1) refused among

-- What is printed of the ends of a pair, in this order.
pair_words :
    (debug_canceler words numbered queued ("tx" ∷ []) ≡ "Canceler" ∷ "sender" ∷ "tx" ∷ [])
    × (debug_receiver words numbered queued
          ("rx" ∷ [])
          (λ o. "none" ∷ [])
          (record { first_sender = none })
        ≡ "Receiver" ∷ "receiver" ∷ "rx" ∷ "first_sender" ∷ "none" ∷ [])
unfolding debug_canceler debug_receiver
pair_words = (refl, refl)

message_words :
    (debug_waiter words numbered queued (λ k. "rx" ∷ []) (waiter 1)
      ≡ "Waiter" ∷ "dropped_receiver" ∷ "rx" ∷ [])
    × (debug_payload words numbered queued
          (λ m. "stop" ∷ [])
          (λ k. "tx" ∷ [])
          (record { message = 7; dropped_sender = 0 })
        ≡ "CancelPayload" ∷ "message" ∷ "stop" ∷ "dropped_sender" ∷ "tx" ∷ [])
unfolding debug_waiter debug_payload
message_words = (refl, refl)
