-- ===== src/RobustMutex/Locking.antt =====
-- src/sync/mutex.rs: what the locking and inspecting operations of `RobustMutex` answer.
use cancel_safe_futures.Base.{
  ◌≡◌, ◌≢◌, ◌⊎◌, true, false, ◌||◌, none, some, ok, err, arith, Poll, pending, ready,
}
use cancel_safe_futures.Poison.Error.{
  panic_poison, cancel_poison, has_bit, LockResult, TryLockResult, poisoned, would_block, is_panic,
  is_cancel, map_result, into_inner,
}
use cancel_safe_futures.Poison.Flag.{Flag, borrow}
use cancel_safe_futures.Poison.Laws.{IsFlag, any_bit}
use cancel_safe_futures.RobustMutex.Tokio.{TokioMutex}
use cancel_safe_futures.RobustMutex.Mutex.{
  RobustMutex, ActionPermit, try_lock, into_inner as unwrap_mutex, poll_lock, is_poisoned,
  is_panic_poisoned, is_cancel_poisoned, debug,
}

-- A lock result that reflects the flag: a success means a clean one, an error names its causes.
abbrev pub Reflects {ℓ} : {G : Type ℓ} → Flag → LockResult G → Type 0
Reflects f (ok g) = f.failed ≡ 0
Reflects f (err e) =
    (f.failed ≢ 0)
    × (is_panic e ≡ has_bit f.failed panic_poison)
    × (is_cancel e ≡ has_bit f.failed cancel_poison)

module _ {T : Type 0} (tokio : TokioMutex T) (m : RobustMutex tokio) where
  -- A mutex after an attempt to lock: only the lock itself may have changed.
  abbrev pub Kept : RobustMutex tokio → Type 0
  Kept m' = (m'.poison ≡ m.poison) × (tokio.value m'.inner ≡ tokio.value m.inner)

  abbrev pub Locked : RobustMutex tokio → Type 0
  Locked m' = (tokio.held m.inner ≡ false) × (tokio.held m'.inner ≡ true)

  abbrev pub TryLocked : TryLockResult (ActionPermit tokio) × RobustMutex tokio → Type 0
  TryLocked (ok p, m') = Kept m' × (m.poison.failed ≡ 0) × Locked m'
  TryLocked (err (poisoned e), m') = Kept m' × Reflects m.poison (err e) × Locked m'
  TryLocked (err would_block, m') = Kept m' × (tokio.held m'.inner ≡ tokio.held m.inner)

  -- `try_lock` leaves the flag and the data as they are in every case. A permit, in a success or
  -- inside a poison error, is given only if no other guard was out, and takes the lock. A success
  -- means that the mutex is not poisoned, a poison error that it is, with the causes that the flag
  -- holds. `WouldBlock` leaves the lock as it was. This holds for a flag that has no bits but those
  -- of the two causes.
  pub try_lock_lem : IsFlag m.poison → TryLocked (try_lock tokio m)
  unfolding try_lock map_result borrow is_panic is_cancel
  try_lock_lem h = ground (arith, tokio.try_lock_law m.inner)

  abbrev pub Polled : Poll (LockResult (ActionPermit tokio)) → RobustMutex tokio → Type 0
  Polled pending m' = Kept m' × (tokio.held m'.inner ≡ tokio.held m.inner)
  Polled (ready r) m' = Kept m' × Reflects m.poison r × Locked m'

  -- A poll of `lock` that is pending changes nothing that a client sees. One that is ready took the
  -- free lock, left data and flag alone, and reports the poison that the flag holds at that moment.
  pub poll_lock_lem :
      (l : tokio.Lock) → IsFlag m.poison → Polled (poll_lock tokio l m).0 (poll_lock tokio l m).2
  unfolding poll_lock map_result borrow is_panic is_cancel
  poll_lock_lem l h = ground (arith, tokio.poll_lock_law l m.inner)

  -- `is_poisoned` is the disjunction of the two specific tests, as its documentation says.
  pub is_poisoned-or :
      IsFlag m.poison
      → (is_poisoned tokio m ≡ (is_panic_poisoned tokio m || is_cancel_poisoned tokio m))
  unfolding is_poisoned is_panic_poisoned is_cancel_poisoned
  is_poisoned-or h = any_bit m.poison.failed h

  abbrev pub Unwrapped : LockResult T → Type 0
  Unwrapped (ok t) = (m.poison.failed ≡ 0) × (t ≡ tokio.value m.inner)
  Unwrapped (err e) = Reflects m.poison (err e) × (into_inner e ≡ tokio.value m.inner)

  -- `into_inner` gives the data in both cases, and fails exactly if the mutex is poisoned.
  pub into_inner_lem : Unwrapped (unwrap_mutex tokio m)
  unfolding unwrap_mutex into_inner map_result borrow is_panic is_cancel
  into_inner_lem = ground (arith, tokio.into_inner_law m.inner)

  -- Printing a mutex leaves it as it was: the flag, the data, and whether the lock is held. The
  -- data is shown only if the lock was free and the mutex is not poisoned; a poisoned one prints as
  -- locked.
  pub debug_lem :
      let (shown, m') = debug tokio m in
      Kept m'
      × (tokio.held m'.inner ≡ tokio.held m.inner)
      × ((shown.0 ≡ none)
          ⊎ ((shown.0 ≡ some (tokio.value m.inner))
              × (m.poison.failed ≡ 0)
              × (tokio.held m.inner ≡ false)))
  unfolding debug map_result borrow
  debug_lem = grind (arith, tokio.try_lock_law m.inner, tokio.unlock_law)
