-- ===== src/RobustMutex/Safety.antt =====
-- src/sync/mutex.rs: what holds of a mutex that any number of tasks share, whatever order they run
-- in, and whichever of their actions panic or are cancelled.
pub mod Defs
mod Attempts
mod Effects
mod Moves
mod Steps
mod Poisoning
pub mod Owner
pub mod Unlocking
use mathlib.Core.Path.{subst}
use cancel_safe_futures.Base.{ℕ, ◌≡◌, ◌⊎◌, sym, true, ok, Poll, ready, arith}
use cancel_safe_futures.Poison.Error.{has_bit, panic_poison, cancel_poison}
use cancel_safe_futures.RobustMutex.Tokio.{TokioMutex}
use cancel_safe_futures.RobustMutex.Mutex.{ActionPermit, poll_lock}
use cancel_safe_futures.RobustMutex.Perform.{ActionFuture}
use cancel_safe_futures.RobustMutex.System.{System, Reach, init, Continues}
use cancel_safe_futures.RobustMutex.Locking.{Polled, poll_lock_lem}
use cancel_safe_futures.RobustMutex.Safety.Defs.{active}
use cancel_safe_futures.RobustMutex.Safety.Steps.{init-Inv, Reach-Inv}
use cancel_safe_futures.RobustMutex.Safety.Poisoning.{Reach-has_bit}

module _ {T R : Type 0} (tokio : TokioMutex T) (boxed : ActionFuture T R) (P : T → Type 0)
    (J : boxed.Fut → T → Type 0)
    (polls : (fut : boxed.Fut) (t : T)
      → J fut t
      → Continues tokio boxed P J (boxed.poll fut t)) where
  -- The lock is exclusive: in every reachable state at most one task holds a permit, is inside an
  -- action, or has not yet dropped what remains of one. Synchronous actions start on threads that
  -- are not panicking.
  pub active_unique :
      {s : System tokio boxed} (t : T)
      → P t
      → Reach tokio boxed P J (init tokio boxed t) s
      → (i j : ℕ) → active tokio boxed (s.tasks i) ≡ true
      → active tokio boxed (s.tasks j) ≡ true
      → i ≡ j
  active_unique t h r = (Reach-Inv tokio boxed P J polls r (init-Inv tokio boxed P J t h)).alone

  -- The promise of the mutex: if the first data satisfy `P` and every action that runs to its end
  -- restores `P`, and the owner writes through `get_mut` only data that satisfy `P`, then a `lock`
  -- that succeeds finds data that satisfy `P`, however many actions have panicked or been cancelled
  -- half-way, and whatever data these left behind. Synchronous actions start on threads that are
  -- not panicking.
  pub poll_lock-safe :
      {s : System tokio boxed} (t : T)
      → P t
      → Reach tokio boxed P J (init tokio boxed t) s
      → (l : tokio.Lock) (p : ActionPermit tokio) → (poll_lock tokio l s.mutex).0 ≡ ready (ok p)
      → P (tokio.value (poll_lock tokio l s.mutex).2.inner)
  poll_lock-safe {s} t h r l p e =
      let fit = (Reach-Inv tokio boxed P J polls r (init-Inv tokio boxed P J t h)).fits 0 in
      let got = poll_lock_lem tokio s.mutex l fit.flag in
      let (kept, clean, locked) =
        subst (λ a. Polled tokio s.mutex a (poll_lock tokio l s.mutex).2) e got in
      subst P (sym kept.1) (fit.free locked.0 clean)

  -- Poison is permanent: once the panic bit or the cancel bit is set, no step of any task clears
  -- it. Synchronous actions start on threads that are not panicking.
  pub poison-permanent :
      {s u : System tokio boxed} (t : T) (mask : ℕ)
      → P t
      → Reach tokio boxed P J (init tokio boxed t) s
      → Reach tokio boxed P J s u
      → (mask ≡ panic_poison) ⊎ (mask ≡ cancel_poison)
      → has_bit s.mutex.poison.failed mask ≡ true
      → has_bit u.mutex.poison.failed mask ≡ true
  poison-permanent t mask h before after which e =
      let inv = Reach-Inv tokio boxed P J polls before (init-Inv tokio boxed P J t h) in
      Reach-has_bit tokio boxed P J polls after inv mask which e
