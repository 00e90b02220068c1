-- ===== src/RobustMutex/Safety/Attempts.antt =====
-- What a call that asks for the lock does to the mutex, whatever it answers.
use cancel_safe_futures.Base.{◌≡◌, true, false, arith}
use cancel_safe_futures.RobustMutex.Tokio.{TokioMutex}
use cancel_safe_futures.RobustMutex.Mutex.{
  RobustMutex, ActionPermit, poll_lock, blocking_lock, try_lock, permit,
}
use cancel_safe_futures.RobustMutex.Perform.{ActionFuture}
use cancel_safe_futures.RobustMutex.Locking.{debug_lem}
use cancel_safe_futures.RobustMutex.System.{
  Acquires, by_lock, by_blocking_lock, by_try_lock, by_poisoned_try_lock, Misses, lock_pending,
  lock_dropped, blocking_lock_blocked, blocking_lock_panicked, try_lock_refused, printed,
}
use cancel_safe_futures.RobustMutex.Safety.Defs.{Same}

module _ {T R : Type 0} (tokio : TokioMutex T) (boxed : ActionFuture T R) where
  pub Acquires-effect :
      {m m' : RobustMutex tokio} {p : ActionPermit tokio}
      → Acquires tokio boxed m p m'
      → (m'.poison ≡ m.poison)
        × (tokio.value m'.inner ≡ tokio.value m.inner)
        × (tokio.held m.inner ≡ false)
        × (tokio.held m'.inner ≡ true)
  unfolding poll_lock blocking_lock try_lock
  Acquires-effect {m} (by_lock l r e) = ground (arith, tokio.poll_lock_law l m.inner)
  Acquires-effect {m} (by_blocking_lock r e) = ground (arith, tokio.blocking_lock_law m.inner)
  Acquires-effect {m} (by_try_lock p e) = ground (arith, tokio.try_lock_law m.inner)
  Acquires-effect {m} (by_poisoned_try_lock f e) = ground (arith, tokio.try_lock_law m.inner)

  pub Misses-Same : {m m' : RobustMutex tokio} → Misses tokio boxed m m' → Same tokio boxed m m'
  unfolding poll_lock blocking_lock try_lock permit
  Misses-Same {m} (lock_pending l e) = ground (arith, tokio.poll_lock_law l m.inner)
  Misses-Same {m} (lock_dropped l) = ground (arith, tokio.drop_lock_law l m.inner)
  Misses-Same {m} (blocking_lock_blocked e) = ground (arith, tokio.blocking_lock_law m.inner)
  Misses-Same {m} (blocking_lock_panicked e) = ground (arith, tokio.blocking_lock_law m.inner)
  Misses-Same {m} (try_lock_refused e) = ground (arith, tokio.try_lock_law m.inner)
  Misses-Same {m} printed = ground (arith, debug_lem tokio m)
