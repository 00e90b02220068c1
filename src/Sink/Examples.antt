-- ===== src/Sink/Examples.antt =====
-- A sink that buffers one item, and clients of it.
use cancel_safe_futures.Base.{
  ℕ, zero, suc, ◌≡◌, ◌≢◌, refl, true, List, [], ◌∷◌, ◌++◌, Option, none, some, Result, ok, err,
  Poll, pending, ready, Outcome, returned, unwound, is_unwound,
}
use cancel_safe_futures.Sink.Ext.{reserve, flush_reserve}
use cancel_safe_futures.Sink.Defs.{
  Sink, Permit, new_reserve, new_flush_reserve, is_terminated, poll_reserve, poll_flush_reserve,
  send,
}
use cancel_safe_futures.Sink.Client.{
  Call, asked, sent, flushed, traced, FlushFuture, idle, permitted, broken, Client, start_reserve,
  start_flush_reserve, poll, flush_poll, cancel, send_item, flush_sent, drop_flush, Reach, here,
  next, init,
}
use cancel_safe_futures.Sink.Ext.{flush_reserve}
use cancel_safe_futures.Sink.Polling.{
  Terminates, poll_reserve-is_terminated, FlushEnds, poll_flush_reserve-FlushEnds,
}
use cancel_safe_futures.Sink.Trace.{Granted, Flushed, Ordered, items}
use cancel_safe_futures.Sink.Protocol.{
  trace, Reach-Ordered, items-trace, permitted-Granted, Reach-broken,
}

-- The world holds what has been written. The buffer is flushed when it is full. It refuses 0,
-- panics on 1, and panics when it would flush 0.
abbrev ask : Option ℕ → List ℕ → Outcome (Poll (Result (Unit {0}) ℕ)) × Option ℕ × List ℕ
ask none w = (returned (ready (ok tt)), none, w)
ask (some i) w = (returned pending, none, w ++ i ∷ [])

abbrev put : ℕ → Option ℕ → List ℕ → Outcome (Result (Unit {0}) ℕ) × Option ℕ × List ℕ
put zero b w = (returned (err 22), b, w)
put (suc zero) b w = (unwound, b, w)
put (suc (suc i)) b w = (returned (ok tt), some (suc (suc i)), w)

abbrev flush_buffer : Option ℕ → List ℕ → Outcome (Poll (Result (Unit {0}) ℕ)) × Option ℕ × List ℕ
flush_buffer none w = (returned (ready (ok tt)), none, w)
flush_buffer (some zero) w = (unwound, none, w)
flush_buffer (some (suc i)) w = (returned pending, none, w ++ suc i ∷ [])

abbrev buffer : Sink (List ℕ) ℕ ℕ
buffer = record { Si = Option ℕ; poll_ready = ask; start_send = put; poll_flush = flush_buffer }

abbrev flush : FlushFuture (traced buffer)
flush = record {
  Flush = Option ℕ × List (Call ℕ ℕ);
  new = λ s. s;
  poll = λ s w. (traced buffer).poll_flush s w;
  sink_of = λ s. s;
  sink_of-new = λ s. refl;
  sink_of-poll = λ s w. refl;
}

-- Reserve and drop it; reserve and send 4; poll the flush once and drop it.
abbrev sent_four : Client buffer flush
sent_four = record {
  phase = idle (
    none,
    flushed (returned pending) ∷ sent 4 (returned (ok tt)) ∷ asked (returned (ready (ok tt))) ∷ [],
  );
  given = 4 ∷ [];
}

abbrev sends : Reach buffer flush (init buffer flush none) sent_four
unfolding reserve new_reserve poll_reserve send
sends =
    next
      (next
        (next (next (next (next (next here start_reserve) cancel) start_reserve) (poll []))
          (send_item 4 []))
        (flush_sent []))
      drop_flush

-- `flush_reserve` on a full buffer: pending once, then a permit.
abbrev full : Permit (traced buffer)
full = record {
  sink = (
    none,
    asked (returned (ready (ok tt)))
        ∷ flushed (returned (ready (ok tt)))
        ∷ flushed (returned pending)
        ∷ [],
  );
}

abbrev flushed_first : Client buffer flush
flushed_first = record { phase = permitted true full; given = [] }

abbrev flushes : Reach buffer flush (init buffer flush (some 3)) flushed_first
unfolding flush_reserve new_flush_reserve poll_flush_reserve
flushes = next (next (next here start_flush_reserve) (flush_poll [])) (flush_poll [])

Reach-Ordered_example : Ordered (trace buffer flush sent_four.phase)
Reach-Ordered_example = Reach-Ordered buffer flush none sends

-- A permit sends 1, on which the sink panics; the client catches the panic.
abbrev caught : Client buffer flush
caught = record {
  phase = idle (none, sent 1 unwound ∷ asked (returned (ready (ok tt))) ∷ []);
  given = 1 ∷ [];
}

abbrev catches : Reach buffer flush (init buffer flush none) caught
unfolding reserve new_reserve poll_reserve send
catches = next (next (next here start_reserve) (poll [])) (send_item 1 [])

items-trace_example : items (trace buffer flush caught.phase) ≡ 1 ∷ []
items-trace_example = items-trace buffer flush none catches

permitted-Granted_example :
    Granted (trace buffer flush flushed_first.phase)
    × (true ≡ true → Flushed (trace buffer flush flushed_first.phase))
permitted-Granted_example = permitted-Granted buffer flush (some 3) true full flushes refl

Reach-broken_example : flushed_first.phase ≢ broken
Reach-broken_example = Reach-broken buffer flush (some 3) flushes

poll_reserve-is_terminated_example :
    Terminates buffer
      (is_terminated buffer (new_reserve buffer none))
      (is_terminated buffer (poll_reserve buffer (new_reserve buffer none) []).1)
      []
      (poll_reserve buffer (new_reserve buffer none) []).0
      (poll_reserve buffer (new_reserve buffer none) []).2
poll_reserve-is_terminated_example = poll_reserve-is_terminated buffer (new_reserve buffer none) []

-- The sink panics in its flush.
poll_flush_reserve-FlushEnds_example :
    FlushEnds buffer
      (new_flush_reserve buffer (some 0))
      []
      (poll_flush_reserve buffer (new_flush_reserve buffer (some 0)) [])
    × (is_unwound (poll_flush_reserve buffer (new_flush_reserve buffer (some 0)) []).0 ≡ true)
unfolding new_flush_reserve new_reserve
poll_flush_reserve-FlushEnds_example =
    poll_flush_reserve-FlushEnds buffer (new_flush_reserve buffer (some 0)) [] tt
