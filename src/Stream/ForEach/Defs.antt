-- ===== src/Stream/ForEach/Defs.antt =====
-- src/stream/for_each_concurrent_then_try.rs: `ForEachConcurrentThenTry` and its `poll`, and what
-- it uses of `futures_util::stream::FuturesUnordered`.
use cancel_safe_futures.Base.{
  Outcome, returned, unwound, ℕ, zero, suc, ◌<◌, ◌≤◌, ◌≡◌, Bool, true, false, ◌&&◌, not, ◌==◌, ltb,
  if◌then◌else◌, Option, none, some, is_some, Result, ok, err, Poll, pending, ready,
}
use cancel_safe_futures.Stream.Defs.{TryStream, keep_first}

-- A poll of a set of `n` futures: it ends exactly if the set is empty, and gives one result at a
-- time. If a future panics, none is added.
abbrev pub Drained : {Q Out W : Type 0} → (Q → ℕ) → ℕ → Outcome (Poll (Option Out)) × Q × W → Type 0
Drained len n (returned pending, q, w) = (0 < n) × (len q ≡ n)
Drained len n (returned (ready (some x)), q, w) = n ≡ suc (len q)
Drained len n (returned (ready none), q, w) = (n ≡ 0) × (len q ≡ 0)
Drained len n (unwound, q, w) = len q ≤ n

-- `FuturesUnordered`, which is not part of the crate.
pub record FuturesUnordered (W Fut Out : Type 0) : Type 1 where
  pub Queue : Type 0
  pub empty : Queue
  pub push : Fut → Queue → Queue
  pub len : Queue → ℕ
  pub poll_next : Queue → W → Outcome (Poll (Option Out)) × Queue × W
  pub len-empty : len empty ≡ 0
  pub len-push : (f : Fut) (q : Queue) → len (push f q) ≡ suc (len q)
  pub poll_next_law : (q : Queue) (w : W) → Drained len (len q) (poll_next q w)

-- `limit.and_then(NonZeroUsize::new)`
abbrev pub non_zero : Option ℕ → Option ℕ
non_zero none = none
non_zero (some l) = if l == 0 then none else some l

-- `limit.map(|limit| limit.get() > futures.len()).unwrap_or(true)`
abbrev pub has_room : Option ℕ → ℕ → Bool
has_room none n = true
has_room (some l) n = ltb n l

module _ {W A E Fut Fn : Type 0} (st : TryStream W A E)
    (set : FuturesUnordered W Fut (Result (Unit {0}) E)) (call : Fn → A → Outcome Fut × Fn) where
  pub record ForEachConcurrentThenTry : Type 0 where
    pub stream : Option st.Stream
    pub f : Fn
    pub futures : set.Queue
    pub limit : Option ℕ
    pub first_error : Option E

  unfoldable pub new : st.Stream → Option ℕ → Fn → ForEachConcurrentThenTry
  new stream limit f = record {
    stream = some stream;
    f = f;
    futures = set.empty;
    limit = non_zero limit;
    first_error = none;
  }

  unfoldable pub is_terminated : ForEachConcurrentThenTry → Bool
  is_terminated s = not (is_some s.stream) && set.len s.futures == 0

  -- What the call of the closure leads to. If it panics, the element is lost with it.
  unfoldable pub start_future :
      ForEachConcurrentThenTry → Outcome Fut × Fn → W → Outcome Bool × ForEachConcurrentThenTry × W
  start_future s (unwound, f) w = (unwound, record s { f = f }, w)
  start_future s (returned fut, f) w =
      (returned true, record s { f = f; futures = set.push fut s.futures }, w)

  -- What a poll of the stream leads to. The flag is `made_progress_this_iter`.
  unfoldable pub take_item :
      ForEachConcurrentThenTry
      → Outcome (Poll (Option (Result A E))) × st.Stream × W
      → Outcome Bool × ForEachConcurrentThenTry × W
  unfolding start_future
  take_item s (unwound, stream, w) = (unwound, record s { stream = some stream }, w)
  take_item s (returned pending, stream, w) = (returned false, record s { stream = some stream }, w)
  take_item s (returned (ready none), stream, w) = (returned false, record s { stream = none }, w)
  take_item s (returned (ready (some (err e))), stream, w) = (
    returned false,
    record s { stream = some stream; first_error = keep_first s.first_error e },
    w,
  )
  take_item s (returned (ready (some (ok a))), stream, w) =
      start_future (record s { stream = some stream }) (call s.f a) w

  -- The first half of an iteration.
  abbrev pub poll_some :
      ForEachConcurrentThenTry → Option st.Stream → W → Outcome Bool × ForEachConcurrentThenTry × W
  poll_some s none w = (returned false, s, w)
  poll_some s (some stream) w = take_item s (st.try_poll_next stream w)

  unfoldable pub poll_stream :
      ForEachConcurrentThenTry → W → Outcome Bool × ForEachConcurrentThenTry × W
  unfolding take_item
  poll_stream s w =
      if has_room s.limit (set.len s.futures)
      then poll_some s s.stream w
      else (returned false, s, w)

  -- How an iteration ends: with the result of the whole, or with the flag.
  pub data Iteration : Type 0 where
    finished : Result (Unit {0}) E → Iteration
    progress : Bool → Iteration

  -- `first_error.take().map_or(Ok(()), Err)`
  abbrev pub verdict : Option E → Result (Unit {0}) E
  verdict none = ok tt
  verdict (some e) = err e

  -- What a poll of the running futures leads to.
  unfoldable pub take_result :
      Bool
      → ForEachConcurrentThenTry
      → Outcome (Poll (Option (Result (Unit {0}) E))) × set.Queue × W
      → Outcome Iteration × ForEachConcurrentThenTry × W
  take_result made s (unwound, q, w) = (unwound, record s { futures = q }, w)
  take_result made s (returned pending, q, w) =
      (returned (progress made), record s { futures = q }, w)
  take_result made s (returned (ready (some (ok u))), q, w) =
      (returned (progress true), record s { futures = q }, w)
  take_result made s (returned (ready (some (err e))), q, w) = (
    returned (progress true),
    record s { futures = q; first_error = keep_first s.first_error e },
    w,
  )
  take_result made s (returned (ready none), q, w) =
      if is_some s.stream then (returned (progress made), record s { futures = q }, w) else (
        returned (finished (verdict s.first_error)),
        record s { futures = q; first_error = none },
        w,
      )

  -- The second half, unless the first panicked.
  unfoldable pub poll_futures :
      Outcome Bool × ForEachConcurrentThenTry × W → Outcome Iteration × ForEachConcurrentThenTry × W
  unfolding take_result
  poll_futures (unwound, s, w) = (unwound, s, w)
  poll_futures (returned made, s, w) = take_result made s (set.poll_next s.futures w)

  unfoldable pub iterate :
      ForEachConcurrentThenTry → W → Outcome Iteration × ForEachConcurrentThenTry × W
  unfolding poll_stream poll_futures
  iterate s w = poll_futures (poll_stream s w)

  abbrev pub Answer : Type 0
  Answer = Outcome (Poll (Result (Unit {0}) E)) × ForEachConcurrentThenTry × W

  -- The end of an iteration: return, go round again, or `if !made_progress_this_iter`.
  unfoldable pub after_iteration :
      (ForEachConcurrentThenTry → W → Option Answer)
      → Outcome Iteration × ForEachConcurrentThenTry × W
      → Option Answer
  after_iteration again (unwound, s, w) = some (unwound, s, w)
  after_iteration again (returned (finished r), s, w) = some (returned (ready r), s, w)
  after_iteration again (returned (progress true), s, w) = again s w
  after_iteration again (returned (progress false), s, w) = some (returned pending, s, w)

  -- The loop, on fuel; `none` means that the fuel ran out.
  unfoldable pub poll : ℕ → ForEachConcurrentThenTry → W → Option Answer
  unfolding after_iteration iterate
  poll zero s w = none
  poll (suc n) s w = after_iteration (poll n) (iterate s w)
