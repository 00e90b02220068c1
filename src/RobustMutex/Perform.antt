-- ===== src/RobustMutex/Perform.antt =====
-- src/sync/mutex.rs: `perform_async_boxed` and `perform_async_boxed_local`, which differ only in
-- the type of the boxed future, as a state machine: an `async fn` runs nothing before its first
-- poll, and is dropped at an await point when it is cancelled. A poll or a drop of the action's
-- future may change the data.
use cancel_safe_futures.Base.{
  Bool, false, true, not, Poll, pending, ready, Outcome, returned, unwound,
}
use cancel_safe_futures.Poison.Flag.{Guard, done}
use cancel_safe_futures.RobustMutex.Tokio.{TokioMutex}
use cancel_safe_futures.RobustMutex.Mutex.{RobustMutex, ActionPermit, drop_permit}

pub record AsyncPoisoner : Type 0 where
  pub poison_guard : Guard
  pub terminated : Bool

-- The poisoner of the first poll.
abbrev pub armed : Bool → AsyncPoisoner
armed panicking = record { poison_guard = record { panicking = panicking }; terminated = false }

-- The action's future: one poll with access to the data, and its destructor.
pub record ActionFuture (T R : Type 0) : Type 1 where
  pub Fut : Type 0
  pub poll : Fut → T → Outcome (Poll R) × Fut × T
  pub drop : Fut → T → T

module _ {T R : Type 0} (tokio : TokioMutex T) (boxed : ActionFuture T R) where
  abbrev pub Closure : Type 0
  Closure = T → Outcome boxed.Fut × T

  pub data PerformFuture : Type 0 where
    unresumed : ActionPermit tokio → Closure → PerformFuture
    suspended : ActionPermit tokio → AsyncPoisoner → boxed.Fut → PerformFuture
    finished : PerformFuture

  -- Where one poll ends: at the await point, or on the way out with the locals still to be dropped
  -- (and whether the thread is panicking then).
  pub data Exit : Type 0 where
    awaits : ActionPermit tokio → AsyncPoisoner → boxed.Fut → Exit
    leaves : ActionPermit tokio → AsyncPoisoner → Bool → Exit
    absent : Exit

  unfoldable pub perform_async_boxed : ActionPermit tokio → Closure → PerformFuture
  perform_async_boxed p action = unresumed p action

  -- `<AsyncPoisoner as Drop>::drop`
  unfoldable pub drop_async_poisoner : AsyncPoisoner → Bool → RobustMutex tokio → RobustMutex tokio
  drop_async_poisoner z panicking m = record m {
    poison = done m.poison z.poison_guard panicking (not z.terminated);
  }

  unfoldable pub write_value : ActionPermit tokio → T → RobustMutex tokio → RobustMutex tokio
  write_value p t m = record m { inner = tokio.write p.guard t m.inner }

  -- What follows a poll of the action's future. A future that has ended or unwound is dropped
  -- before the poisoner.
  unfoldable pub after_poll :
      Bool
      → ActionPermit tokio
      → AsyncPoisoner
      → RobustMutex tokio
      → Outcome (Poll R)
      → boxed.Fut
      → T
      → Outcome (Poll R) × Exit × RobustMutex tokio
  unfolding write_value
  after_poll panicking p z m (returned pending) fut t =
      (returned pending, awaits p z fut, write_value p t m)
  after_poll panicking p z m (returned (ready r)) fut t =
      let m1 = write_value p (boxed.drop fut t) m in
      (returned (ready r), leaves p (record z { terminated = true }) panicking, m1)
  after_poll panicking p z m unwound fut t =
      (unwound, leaves p z true, write_value p (boxed.drop fut t) m)

  -- `.await`
  unfoldable pub await_action :
      Bool
      → ActionPermit tokio
      → AsyncPoisoner
      → boxed.Fut
      → RobustMutex tokio
      → Outcome (Poll R) × Exit × RobustMutex tokio
  unfolding after_poll
  await_action panicking p z fut m =
      let (out, fut', t) = boxed.poll fut (tokio.value m.inner) in
      after_poll panicking p z m out fut' t

  -- What follows the call of `action`, in the first poll.
  unfoldable pub after_call :
      Bool
      → ActionPermit tokio
      → RobustMutex tokio
      → Outcome boxed.Fut
      → T
      → Outcome (Poll R) × Exit × RobustMutex tokio
  unfolding await_action
  after_call panicking p m (returned fut) t =
      await_action panicking p (armed panicking) fut (write_value p t m)
  after_call panicking p m unwound t = (unwound, leaves p (armed panicking) true, write_value p t m)

  -- One poll, up to the drops of the locals.
  unfoldable pub resume :
      Bool → PerformFuture → RobustMutex tokio → Outcome (Poll R) × Exit × RobustMutex tokio
  unfolding after_call
  resume panicking (unresumed p action) m =
      let (out, t) = action (tokio.value m.inner) in after_call panicking p m out t
  resume panicking (suspended p z fut) m = await_action panicking p z fut m
  resume panicking finished m = (unwound, absent, m)

  -- The drops: the poisoner first, the permit after it.
  unfoldable pub settle : Exit → RobustMutex tokio → PerformFuture × RobustMutex tokio
  unfolding drop_async_poisoner
  settle (awaits p z fut) m = (suspended p z fut, m)
  settle (leaves p z panicking) m =
      (finished, drop_permit tokio p (drop_async_poisoner z panicking m))
  settle absent m = (finished, m)

  unfoldable pub poll_perform :
      Bool
      → PerformFuture
      → RobustMutex tokio
      → Outcome (Poll R) × PerformFuture × RobustMutex tokio
  unfolding resume settle
  poll_perform panicking f m =
      let (out, e, m1) = resume panicking f m in let (f', m2) = settle e m1 in (out, f', m2)

  -- Dropping the future: a cancellation, unless it has finished.
  unfoldable pub abandon : Bool → PerformFuture → RobustMutex tokio → Exit × RobustMutex tokio
  unfolding write_value
  abandon panicking (unresumed p action) m = (absent, drop_permit tokio p m)
  abandon panicking (suspended p z fut) m =
      (leaves p z panicking, write_value p (boxed.drop fut (tokio.value m.inner)) m)
  abandon panicking finished m = (absent, m)

  unfoldable pub drop_perform : Bool → PerformFuture → RobustMutex tokio → RobustMutex tokio
  unfolding abandon settle
  drop_perform panicking f m = let (e, m1) = abandon panicking f m in (settle e m1).1
