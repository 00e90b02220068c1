-- ===== src/RobustMutex/Client.antt =====
-- src/sync/mutex.rs: a client that owns a `RobustMutex`, and a cell with two marks that it can take
-- the mutex for. `now` says whether the client's thread is panicking; it is the same during one
-- call.
use cancel_safe_futures.Base.{
  ℕ, zero, suc, Bool, true, false, not, ◌&&◌, ◌||◌, Option, none, some, ok, err, Poll, pending,
  ready, Outcome, returned, unwound, is_unwound, if◌then◌else◌,
}
use cancel_safe_futures.Poison.Error.{
  TryLockResult, poisoned, would_block, is_panic, is_cancel, into_inner,
}
use cancel_safe_futures.RobustMutex.Tokio.{TokioMutex}
use cancel_safe_futures.RobustMutex.Mutex.{
  RobustMutex, ActionPermit, drop_permit, try_lock, get_mut,
}
use cancel_safe_futures.RobustMutex.Permit.{perform}
use cancel_safe_futures.RobustMutex.Perform.{
  ActionFuture, PerformFuture, perform_async_boxed, poll_perform, drop_perform,
}

module _ {T R : Type 0} (boxed : ActionFuture T R) where
  -- A call of the client. An asynchronous action is polled at most `n` times and then dropped.
  pub data Op : Type 0 where
    run : (T → Outcome R × T) → Op
    run_async : (T → Outcome boxed.Fut × T) → ℕ → Op
    overwrite : T → Op

  -- What the client gets: that the lock was taken, or the marks that it was told of, and how the
  -- action ended; `none` if it was cancelled.
  pub data Response : Type 0 where
    blocked : Response
    ran : Option (Bool × Bool) → Option (Outcome R) → Response
    written : Response

  -- The cell that the mutex stands for.
  pub record Spec : Type 0 where
    pub value : T
    pub panicked : Bool
    pub cancelled : Bool

  abbrev pub mark : Spec → T → Bool → Bool → Spec
  mark s t panic cancel = record {
    value = t;
    panicked = s.panicked || panic;
    cancelled = s.cancelled || cancel;
  }

  -- The marks, if there is one.
  abbrev pub report : Spec → Option (Bool × Bool)
  report s = if s.panicked || s.cancelled then some (s.panicked, s.cancelled) else none

  -- An asynchronous action works on the value itself. What one poll of it leads to:
  unfoldable pub go_on :
      (boxed.Fut → Spec → Option (Outcome R) × Spec)
      → Bool
      → Spec
      → Outcome (Poll R) × boxed.Fut × T
      → Option (Outcome R) × Spec
  go_on again now s (returned pending, fut, t) = again fut (record s { value = t })
  go_on again now s (returned (ready r), fut, t) =
      (some (returned r), mark s (boxed.drop fut t) false false)
  go_on again now s (unwound, fut, t) = (some unwound, mark s (boxed.drop fut t) (not now) true)

  unfoldable pub await_spec : Bool → ℕ → boxed.Fut → Spec → Option (Outcome R) × Spec
  unfolding go_on
  await_spec now zero fut s = (none, mark s (boxed.drop fut s.value) false true)
  await_spec now (suc n) fut s = go_on (await_spec now n) now s (boxed.poll fut s.value)

  -- The first poll calls the closure; a future that is never polled does nothing.
  abbrev pub started : Bool → ℕ → Spec → Outcome boxed.Fut × T → Option (Outcome R) × Spec
  started now n s (returned fut, t) = await_spec now (suc n) fut (record s { value = t })
  started now n s (unwound, t) = (some unwound, mark s t (not now) true)

  unfoldable pub async_spec :
      Bool → (T → Outcome boxed.Fut × T) → ℕ → Spec → Option (Outcome R) × Spec
  async_spec now action zero s = (none, s)
  async_spec now action (suc n) s = started now n s (action s.value)

  unfoldable pub spec : Bool → Op → Spec → Response × Spec
  unfolding async_spec await_spec
  spec now (run action) s =
      let (out, t) = action s.value in
      (ran (report s) (some out), mark s t (not now && is_unwound out) false)
  spec now (run_async action n) s =
      let (out, s') = async_spec now action n s in (ran (report s) out, s')
  spec now (overwrite t) s = (written, record s { value = t })

module _ {T R : Type 0} (tokio : TokioMutex T) (boxed : ActionFuture T R) where
  -- The client polls the future of `perform_async_boxed`, and drops it in every case.
  unfoldable pub driven :
      (PerformFuture tokio boxed → RobustMutex tokio → Option (Outcome R) × RobustMutex tokio)
      → Bool
      → Outcome (Poll R) × PerformFuture tokio boxed × RobustMutex tokio
      → Option (Outcome R) × RobustMutex tokio
  driven again now (returned pending, f, m) = again f m
  driven again now (returned (ready r), f, m) =
      (some (returned r), drop_perform tokio boxed now f m)
  driven again now (unwound, f, m) = (some unwound, drop_perform tokio boxed now f m)

  unfoldable pub drive :
      Bool
      → ℕ
      → PerformFuture tokio boxed
      → RobustMutex tokio
      → Option (Outcome R) × RobustMutex tokio
  unfolding driven
  drive now zero f m = (none, drop_perform tokio boxed now f m)
  drive now (suc n) f m = driven (drive now n) now (poll_perform tokio boxed now f m)

  -- The call with the permit that it got, and the marks that came with it.
  unfoldable pub with_permit :
      Bool
      → Op boxed
      → Option (Bool × Bool)
      → ActionPermit tokio
      → RobustMutex tokio
      → Response boxed × RobustMutex tokio
  unfolding drive
  with_permit now (run action) marks p m =
      let (out, m') = perform tokio now p action m in (ran marks (some out), m')
  with_permit now (run_async action n) marks p m =
      let (out, m') = drive now n (perform_async_boxed tokio boxed p action) m in
      (ran marks out, m')
  with_permit now (overwrite t) marks p m = (written, get_mut tokio t (drop_permit tokio p m))

  -- The client goes on when the mutex is poisoned.
  unfoldable pub locked :
      Bool
      → Op boxed
      → TryLockResult (ActionPermit tokio) × RobustMutex tokio
      → Response boxed × RobustMutex tokio
  unfolding with_permit
  locked now op (ok p, m) = with_permit now op none p m
  locked now op (err (poisoned e), m) =
      with_permit now op (some (is_panic e, is_cancel e)) (into_inner e) m
  locked now op (err would_block, m) = (blocked, m)

  unfoldable pub call : Bool → Op boxed → RobustMutex tokio → Response boxed × RobustMutex tokio
  unfolding locked
  call now (overwrite t) m = (written, get_mut tokio t m)
  call now (run action) m = locked now (run action) (try_lock tokio m)
  call now (run_async action n) m = locked now (run_async action n) (try_lock tokio m)
