-- ===== src/Stream/ForEach/Debug.antt =====
-- src/stream/for_each_concurrent_then_try.rs: what `Debug` writes, from the texts of the fields.
-- The closure has none.
use cancel_safe_futures.Base.{ℕ, Option, Result, Outcome}
use cancel_safe_futures.Fmt.{Formatter}
use cancel_safe_futures.Stream.Defs.{TryStream}
use cancel_safe_futures.Stream.ForEach.Defs.{FuturesUnordered, ForEachConcurrentThenTry}

module _ (f : Formatter) {W A E Fut Fn : Type 0} (st : TryStream W A E)
    (set : FuturesUnordered W Fut (Result (Unit {0}) E)) (call : Fn → A → Outcome Fut × Fn) where
  unfoldable pub debug_for_each :
      (Option st.Stream → f.Text)
      → (set.Queue → f.Text)
      → (Option ℕ → f.Text)
      → (Option E → f.Text)
      → ForEachConcurrentThenTry st set call
      → f.Text
  debug_for_each stream futures limit first_error s = f.finish (
      f.field "first_error" (first_error s.first_error) (
        f.field "limit" (limit s.limit) (
          f.field "futures" (futures s.futures)
            (f.field "stream" (stream s.stream) (f.debug_struct "ForEachConcurrentThenTry")))))
