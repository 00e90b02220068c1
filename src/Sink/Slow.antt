-- ===== src/Sink/Slow.antt =====
-- A sink that waits, and a run of `flush_reserve` on it.
use cancel_safe_futures.Base.{
  ℕ, zero, suc, ◌≡◌, ◌+◌, refl, Bool, true, false, some, Result, ok, Poll, pending, ready, Outcome,
  returned, arith,
}
use cancel_safe_futures.Sink.Ext.{flush_reserve}
use cancel_safe_futures.Sink.Defs.{Sink, poll_flush_reserve}
use cancel_safe_futures.Future.Woken.{Ends, block_on_woken}
use cancel_safe_futures.Sink.Ext.{flush_reserve}
use cancel_safe_futures.Sink.Run.{Serves, Prompt, IsServed, block_on_woken-flush_reserve}

-- A sink that waits in its first flushes, then before it is ready; a wait says that the task will
-- be woken.
abbrev Waits : Type 0
Waits = ℕ × ℕ

abbrev flush_waits : Waits → Bool → Outcome (Poll (Result (Unit {0}) ℕ)) × Waits × Bool
flush_waits (zero, k) w = (returned (ready (ok tt)), (zero, k), w)
flush_waits (suc n, k) w = (returned pending, (n, k), true)

abbrev ready_waits : Waits → Bool → Outcome (Poll (Result (Unit {0}) ℕ)) × Waits × Bool
ready_waits (n, zero) w = (returned (ready (ok tt)), (n, zero), w)
ready_waits (n, suc k) w = (returned pending, (n, k), true)

abbrev slow_sink : Sink Bool ℕ ℕ
slow_sink = record {
  Si = Waits;
  poll_ready = ready_waits;
  start_send = λ item s w. (returned (ok tt), s, w);
  poll_flush = flush_waits;
}

abbrev all_waits : Waits → ℕ
all_waits (n, k) = n + k

flush_waits-Serves :
    (s : Waits) (w : Bool)
    → Serves slow_sink
        (λ b. b)
        all_waits
        (λ s'. Unit)
        (λ s'. s'.0 ≡ 0)
        (λ e. ⊥)
        (all_waits s)
        (flush_waits s w)
flush_waits-Serves (zero, k) w = (omega arith, refl)
flush_waits-Serves (suc n, k) w = (omega arith, refl, tt)

ready_waits-Serves :
    (s : Waits) (w : Bool)
    → s.0 ≡ 0
    → Serves slow_sink
        (λ b. b)
        all_waits
        (λ s'. s'.0 ≡ 0)
        (λ s'. (s'.0 ≡ 0) × (s'.1 ≡ 0))
        (λ e. ⊥)
        (all_waits s)
        (ready_waits s w)
ready_waits-Serves (n, zero) w h = (omega arith, (h, refl))
ready_waits-Serves (n, suc k) w h = (omega arith, refl, h)

abbrev slow_prompt : Prompt slow_sink (λ b. b)
slow_prompt = record {
  lag = all_waits;
  IsFlushed = λ s. s.0 ≡ 0;
  IsReady = λ s. s.1 ≡ 0;
  Failure = λ e. ⊥;
  flush_law = flush_waits-Serves;
  ready_law = ready_waits-Serves;
}

block_on_woken-flush_reserve_example : Ends (IsServed slow_sink (λ b. b) slow_prompt) (
    block_on_woken
      (λ b. b)
      (λ f v. some (poll_flush_reserve slow_sink f v))
      (λ w. false)
      4
      (flush_reserve slow_sink (2, 1))
      false)
block_on_woken-flush_reserve_example =
    block_on_woken-flush_reserve slow_sink (λ b. b) slow_prompt (λ w. false) (2, 1) 3 false
      (omega arith)
