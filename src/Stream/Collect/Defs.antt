-- ===== src/Stream/Collect/Defs.antt =====
-- src/stream/collect_then_try.rs: the state and the loop of `poll`.
use cancel_safe_futures.Base.{
  Outcome, returned, unwound, ℕ, zero, suc, Bool, Option, none, some, Result, ok, err, Poll,
  pending, ready,
}
use cancel_safe_futures.Stream.Defs.{TryStream, keep_first}

-- `C : Default + Extend<A>`, given by the caller. If `extend` panics, it leaves some collection.
pub record Collection (C A : Type 0) : Type 0 where
  pub default : C
  pub extend : C → A → Outcome (Unit {0}) × C

module _ {W A E C : Type 0} (st : TryStream W A E) (col : Collection C A) where
  pub record CollectThenTry : Type 0 where
    pub stream : st.Stream
    pub items : C
    pub first_error : Option E

  unfoldable pub new : st.Stream → CollectThenTry
  new s = record { stream = s; items = col.default; first_error = none }

  -- `FusedFuture::is_terminated`, from that of the stream.
  unfoldable pub is_terminated : (st.Stream → Bool) → CollectThenTry → Bool
  is_terminated stream_is_terminated s = stream_is_terminated s.stream

  abbrev pub Answer : Type 0
  Answer = Outcome (Poll (Result C E)) × CollectThenTry × W

  -- The end of the stream: `first_error.take()`, or `mem::take(items)`.
  unfoldable pub finish : CollectThenTry → Option E → Result C E × CollectThenTry
  finish s (some e) = (err e, record s { first_error = none })
  finish s none = (ok s.items, record s { items = col.default })

  -- What the call of `extend` leads to. If it panics, the element is lost to the adapter.
  unfoldable pub after_extend :
      (CollectThenTry → W → Option Answer)
      → CollectThenTry
      → Outcome (Unit {0}) × C
      → W
      → Option Answer
  after_extend again s (unwound, c) w = some (unwound, record s { items = c }, w)
  after_extend again s (returned u, c) w = again (record s { items = c }) w

  -- What one poll of the stream leads to.
  unfoldable pub after_item :
      (CollectThenTry → W → Option Answer)
      → CollectThenTry
      → Outcome (Poll (Option (Result A E))) × st.Stream × W
      → Option Answer
  unfolding finish after_extend
  after_item again s (unwound, x, w) = some (unwound, record s { stream = x }, w)
  after_item again s (returned pending, x, w) = some (returned pending, record s { stream = x }, w)
  after_item again s (returned (ready (some (ok a))), x, w) =
      after_extend again (record s { stream = x }) (col.extend s.items a) w
  after_item again s (returned (ready (some (err e))), x, w) =
      again (record s { stream = x; first_error = keep_first s.first_error e }) w
  after_item again s (returned (ready none), x, w) =
      let (r, s') = finish (record s { stream = x }) s.first_error in
      some (returned (ready r), s', w)

  -- The loop, on fuel; `none` means that the fuel ran out.
  unfoldable pub poll : ℕ → CollectThenTry → W → Option Answer
  unfolding after_item
  poll zero s w = none
  poll (suc n) s w = after_item (poll n) s (st.try_poll_next s.stream w)
