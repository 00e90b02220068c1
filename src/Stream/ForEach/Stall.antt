-- ===== src/Stream/ForEach/Stall.antt =====
-- src/stream/for_each_concurrent_then_try.rs: a poll that meets an error of the stream while no
-- future runs.
use cancel_safe_futures.Base.{
  Outcome, returned, ℕ, suc, ◌≡◌, ◌∙◌, Bool, true, none, some, Result, err, pending, ready, arith,
}
use cancel_safe_futures.Stream.Defs.{TryStream, keep_first}
use cancel_safe_futures.Stream.ForEach.Defs.{
  FuturesUnordered, ForEachConcurrentThenTry, has_room, take_item, poll_stream, poll_futures,
  take_result, poll,
}

module _ {W A E Fut Fn : Type 0} (st : TryStream W A E)
    (set : FuturesUnordered W Fut (Result (Unit {0}) E)) (call : Fn → A → Outcome Fut × Fn) where
  -- Take a state with room for a future, whose stream now yields an error, and whose set of futures
  -- is empty. If the two polls, which are both ready, arrange for no wake-up of the task, then the
  -- poll of the adapter answers `Pending` and arranges for none either. The stream has not ended
  -- and will not be polled again; the error is recorded and not returned.
  pub poll-stall :
      (will_wake : W → Bool) (n : ℕ) (s : ForEachConcurrentThenTry st set call) (x x' : st.Stream)
      (e : E) (q' : set.Queue) (w w1 w2 : W)
      → has_room s.limit (set.len s.futures) ≡ true
      → s.stream ≡ some x
      → st.try_poll_next x w ≡ (returned (ready (some (err e))), x', w1)
      → set.poll_next s.futures w1 ≡ (returned (ready none), q', w2)
      → will_wake w1 ≡ will_wake w
      → will_wake w2 ≡ will_wake w1
      → (poll st set call (suc n) s w
          ≡ some (
            returned pending,
            record s { stream = some x'; futures = q'; first_error = keep_first s.first_error e },
            w2,
          ))
        × (will_wake w2 ≡ will_wake w)
  unfolding poll poll_stream take_item poll_futures take_result
  poll-stall will_wake n s x x' e q' w w1 w2 room at item empty same1 same2 =
      (ground arith, same2 ∙ same1)
