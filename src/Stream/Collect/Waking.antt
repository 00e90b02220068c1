-- ===== src/Stream/Collect/Waking.antt =====
-- src/stream/collect_then_try.rs: a poll that is pending ends with a poll of the stream that is.
use cancel_safe_futures.Base.{
  ℕ, zero, suc, Option, none, some, Result, ok, err, Poll, pending, ready, Outcome, returned,
  unwound,
}
use cancel_safe_futures.Future.Waking.{IfPending, IfAnyPending}
use cancel_safe_futures.Stream.Defs.{TryStream}
use cancel_safe_futures.Stream.Collect.Defs.{
  Collection, CollectThenTry, Answer, after_extend, after_item, poll,
}

module _ {W A E C : Type 0} (st : TryStream W A E) (col : Collection C A)
    (P : st.Stream → W → Type 0)
    (stream_law : (s : st.Stream) (w : W) → IfPending P (st.try_poll_next s w)) where
  abbrev pub OfStream : CollectThenTry {E = E} st col → W → Type 0
  OfStream s w = P s.stream w

  after_extend-IfAnyPending :
      (again : CollectThenTry st col → W → Option (Answer st col))
      → ((s : CollectThenTry st col) (w : W) → IfAnyPending OfStream (again s w))
      → (s : CollectThenTry st col) (r : Outcome (Unit {0}) × C) (w : W)
      → IfAnyPending OfStream (after_extend st col again s r w)
  unfolding after_extend
  after_extend-IfAnyPending again ih s (unwound, c) w = tt
  after_extend-IfAnyPending again ih s (returned u, c) w = ih _ w

  after_item-IfAnyPending :
      (again : CollectThenTry st col → W → Option (Answer st col))
      → ((s : CollectThenTry st col) (w : W) → IfAnyPending OfStream (again s w))
      → (s : CollectThenTry st col) (r : Outcome (Poll (Option (Result A E))) × st.Stream × W)
      → IfPending P r
      → IfAnyPending OfStream (after_item st col again s r)
  unfolding after_item
  after_item-IfAnyPending again ih s (unwound, x, w) h = tt
  after_item-IfAnyPending again ih s (returned pending, x, w) h = h
  after_item-IfAnyPending again ih s (returned (ready none), x, w) h = tt
  after_item-IfAnyPending again ih s (returned (ready (some (ok a))), x, w) h =
      after_extend-IfAnyPending again ih (record s { stream = x }) (col.extend s.items a) w
  after_item-IfAnyPending again ih s (returned (ready (some (err e))), x, w) h = ih _ w

  pub poll-IfAnyPending :
      (n : ℕ) (s : CollectThenTry st col) (w : W) → IfAnyPending OfStream (poll st col n s w)
  unfolding poll
  poll-IfAnyPending zero s w = tt
  poll-IfAnyPending (suc n) s w =
      after_item-IfAnyPending (poll st col n) (poll-IfAnyPending n) s (st.try_poll_next s.stream w)
        (stream_law s.stream w)
