-- ===== src/RobustMutex/Performing.antt =====
-- src/sync/mutex.rs: what `perform` and the future of `perform_async_boxed` do to the mutex,
-- whether the action returns, panics or is cancelled.
use cancel_safe_futures.Base.{
  ◌≡◌, Bool, true, false, not, ◌&&◌, ◌||◌, Poll, pending, ready, Outcome, returned, unwound,
  is_unwound, arith,
}
use cancel_safe_futures.Poison.Flag.{guard_assuming_no_poison}
use cancel_safe_futures.Poison.Laws.{IsFlag, done-has_bit}
use cancel_safe_futures.RobustMutex.Tokio.{TokioMutex}
use cancel_safe_futures.RobustMutex.Mutex.{
  RobustMutex, ActionPermit, is_panic_poisoned, is_cancel_poisoned, drop_permit,
}
use cancel_safe_futures.RobustMutex.Permit.{perform}
use cancel_safe_futures.RobustMutex.Perform.{
  ActionFuture, AsyncPoisoner, PerformFuture, unresumed, suspended, finished, poll_perform,
  drop_perform, settle, resume, await_action,
}

module _ {T : Type 0} (tokio : TokioMutex T) where
  -- `perform` runs the action once on the data, hands on its result or its panic, leaves the data
  -- as the action left it, and unlocks the mutex in both cases. The panic bit is set exactly if it
  -- was set or the action panicked on a thread that was not panicking already; the cancel bit
  -- stays.
  pub perform_lem :
      {R : Type 0} (panicking : Bool) (p : ActionPermit tokio) (action : T → Outcome R × T)
      (m : RobustMutex tokio)
      → IsFlag m.poison
      → let (out, m') = perform tokio panicking p action m in
        let (out₀, t) = action (tokio.value m.inner) in
        (out ≡ out₀)
        × (tokio.value m'.inner ≡ t)
        × (tokio.held m'.inner ≡ false)
        × (is_panic_poisoned tokio m'
            ≡ (is_panic_poisoned tokio m || (not panicking && is_unwound out₀)))
        × (is_cancel_poisoned tokio m' ≡ is_cancel_poisoned tokio m)
        × IsFlag m'.poison
  unfolding perform is_panic_poisoned is_cancel_poisoned guard_assuming_no_poison
  perform_lem panicking p action m h =
      let (out, t) = action (tokio.value m.inner) in
      ground (
        arith,
        done-has_bit m.poison (guard_assuming_no_poison panicking) (panicking || is_unwound out)
            false h,
        tokio.write_law p.guard t m.inner,
        tokio.unlock_law p.guard (tokio.write p.guard t m.inner),
      )

module _ {T R : Type 0} (tokio : TokioMutex T) (boxed : ActionFuture T R) where
  -- The mutex `m'` is unlocked, and its flag is that of `m` with two more bits, if these are set.
  abbrev pub Left : RobustMutex tokio → Bool → Bool → RobustMutex tokio → Type 0
  Left m panic cancel m' =
      (tokio.held m'.inner ≡ false)
      × (is_panic_poisoned tokio m' ≡ (is_panic_poisoned tokio m || panic))
      × (is_cancel_poisoned tokio m' ≡ (is_cancel_poisoned tokio m || cancel))
      × IsFlag m'.poison

  -- A future that is not finished, and whose poisoner is armed if it has been polled.
  abbrev pub IsLive : PerformFuture tokio boxed → Type 0
  IsLive (unresumed p action) = Unit
  IsLive (suspended p z fut) = z.terminated ≡ false
  IsLive finished = ⊥

  -- Whether the thread was panicking when the future was first polled: now, if this is the first
  -- poll.
  abbrev pub began_panicking : Bool → PerformFuture tokio boxed → Bool
  began_panicking panicking (suspended p z fut) = z.poison_guard.panicking
  began_panicking panicking _ = panicking

  abbrev pub Polled :
      Bool
      → PerformFuture tokio boxed
      → RobustMutex tokio
      → Outcome (Poll R) × PerformFuture tokio boxed × RobustMutex tokio
      → Type 0
  Polled panicking f m (returned pending, f', m') =
      IsLive f'
      × (began_panicking panicking f' ≡ began_panicking panicking f)
      × (m'.poison ≡ m.poison)
      × (tokio.held m'.inner ≡ tokio.held m.inner)
  Polled panicking f m (returned (ready r), f', m') =
      (f' ≡ finished) × Left m (not (began_panicking panicking f) && panicking) false m'
  Polled panicking f m (unwound, f', m') =
      (f' ≡ finished) × Left m (not (began_panicking panicking f)) true m'

  abbrev pub Dropped :
      Bool → PerformFuture tokio boxed → RobustMutex tokio → RobustMutex tokio → Type 0
  Dropped panicking (suspended p z fut) m m' =
      Left m (not z.poison_guard.panicking && panicking) true m'
      × (tokio.value m'.inner ≡ boxed.drop fut (tokio.value m.inner))
  Dropped panicking _ m m' =
      (m'.poison ≡ m.poison)
      × (tokio.held m'.inner ≡ false)
      × (tokio.value m'.inner ≡ tokio.value m.inner)

  await_action_lem :
      (panicking : Bool) (p : ActionPermit tokio) (z : AsyncPoisoner) (fut : boxed.Fut)
      (m : RobustMutex tokio)
      → IsFlag m.poison
      → z.terminated ≡ false
      → let (out, e, m1) = await_action tokio boxed panicking p z fut m in
        let (f', m2) = settle tokio boxed e m1 in
        Polled panicking (suspended p z fut) m (out, f', m2)
  unfolding await_action settle drop_permit is_panic_poisoned is_cancel_poisoned
  await_action_lem panicking p z fut m h live =
      let (out, fut', t) = boxed.poll fut (tokio.value m.inner) in
      ground (
        arith,
        done-has_bit m.poison z.poison_guard panicking false h,
        done-has_bit m.poison z.poison_guard true true h,
        tokio.write_law p.guard t m.inner,
        tokio.unlock_law p.guard (tokio.write p.guard (boxed.drop fut' t) m.inner),
      )

  -- One poll of a live `perform` future. If the action waits, the lock and the flag stay as they
  -- are and the future stays live. If it completes, the mutex is unlocked and not marked, but with
  -- a panic when the thread began to panic since the first poll. If it panics, the mutex is
  -- unlocked, marked as cancelled, and marked as panicked unless the thread was panicking at the
  -- first poll.
  pub poll_perform_lem :
      (panicking : Bool) (f : PerformFuture tokio boxed) (m : RobustMutex tokio)
      → IsFlag m.poison
      → IsLive f
      → Polled panicking f m (poll_perform tokio boxed panicking f m)
  unfolding poll_perform resume guard_assuming_no_poison drop_permit is_panic_poisoned
      is_cancel_poisoned
  poll_perform_lem panicking (unresumed p action) m h live = grind (
    arith,
    done-has_bit m.poison (guard_assuming_no_poison panicking) panicking false h,
    done-has_bit m.poison (guard_assuming_no_poison panicking) true true h,
    tokio.write_law,
    tokio.unlock_law,
  )
  poll_perform_lem panicking (suspended p z fut) m h live =
      await_action_lem panicking p z fut m h live
  poll_perform_lem panicking finished m h live = absurd live

  -- Dropping a live `perform` future unlocks the mutex. It marks the mutex as cancelled exactly if
  -- the future has been polled; dropping one that was never polled leaves the data and the flag
  -- alone.
  pub drop_perform_lem :
      (panicking : Bool) (f : PerformFuture tokio boxed) (m : RobustMutex tokio)
      → IsFlag m.poison
      → IsLive f
      → Dropped panicking f m (drop_perform tokio boxed panicking f m)
  unfolding drop_perform drop_permit is_panic_poisoned is_cancel_poisoned
  drop_perform_lem panicking (unresumed p action) m h live =
      ground (arith, tokio.unlock_law p.guard m.inner)
  drop_perform_lem panicking (suspended p z fut) m h live =
      let t = boxed.drop fut (tokio.value m.inner) in
      ground (
        arith,
        done-has_bit m.poison z.poison_guard panicking true h,
        tokio.write_law p.guard t m.inner,
        tokio.unlock_law p.guard (tokio.write p.guard t m.inner),
      )
  drop_perform_lem panicking finished m h live = absurd live
