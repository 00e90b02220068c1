-- ===== src/JoinAll/Debug.antt =====
-- src/future/join_all_then_try.rs: what `Debug` writes, from the texts of the cells and of the
-- adapter of the big kind.
use cancel_safe_futures.Base.{List, Result, Poll, Outcome}
use cancel_safe_futures.Fmt.{Formatter}
use cancel_safe_futures.Stream.Collect.Defs.{CollectThenTry}
use cancel_safe_futures.Future.MaybeDone.{MaybeDone}
use cancel_safe_futures.JoinAll.Kinds.{FuturesOrdered, vec, JoinAllThenTry, small, big}

module _ (f : Formatter) {W F A E : Type 0}
    {poll_future : F → W → Outcome (Poll (Result A E)) × F × W}
    (maybe : MaybeDone W F (Result A E) poll_future)
    (ordered : FuturesOrdered W F A E poll_future) where
  unfoldable pub debug_join :
      (List maybe.Cell → f.Text)
      → (CollectThenTry {E = E} ordered.queue (vec {A = A}) → f.Text)
      → JoinAllThenTry maybe ordered
      → f.Text
  debug_join elems fut (small cs) =
      f.finish (f.field "elems" (elems cs) (f.debug_struct "JoinAllThenTry"))
  debug_join elems fut (big s) = fut s
