-- ===== src/Stream/Ext.antt =====
-- src/stream/try_stream.rs: the methods of `TryStreamExt`.
use cancel_safe_futures.Base.{Outcome, ℕ, Option, Result}
use cancel_safe_futures.Support.{assert_future}
use cancel_safe_futures.Stream.Defs.{TryStream}
use cancel_safe_futures.Stream.Collect.Defs as Collect
use cancel_safe_futures.Stream.Collect.Defs.{Collection, CollectThenTry}
use cancel_safe_futures.Stream.ForEach.Defs as ForEach
use cancel_safe_futures.Stream.ForEach.Defs.{FuturesUnordered, ForEachConcurrentThenTry}

module _ {W A E : Type 0} (st : TryStream W A E) where
  unfoldable pub collect_then_try :
      {C : Type 0} (col : Collection C A) → st.Stream → CollectThenTry {E = E} st col
  unfolding Collect.new
  collect_then_try col s = Collect.new st col s

  -- `into` is the conversion of the limit's type to an optional number.
  unfoldable pub for_each_concurrent_then_try :
      {Fut Fn L : Type 0} (set : FuturesUnordered W Fut (Result (Unit {0}) E))
      (call : Fn → A → Outcome Fut × Fn)
      → (L → Option ℕ)
      → st.Stream
      → L
      → Fn
      → ForEachConcurrentThenTry st set call
  unfolding ForEach.new
  for_each_concurrent_then_try set call into s limit f =
      assert_future (ForEach.new st set call s (into limit) f)
