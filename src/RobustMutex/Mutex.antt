-- ===== src/RobustMutex/Mutex.antt =====
-- src/sync/mutex.rs: the mutex and the operations that lock and inspect it. A method that takes
-- `&self` and changes the mutex returns the new one.
use Prim.Native.String.{String}
use cancel_safe_futures.Base.{
  Bool, not, ◌==◌, Option, none, some, ok, err, Poll, pending, ready, Outcome, returned, unwound,
}
use cancel_safe_futures.Fmt.{Formatter}
use cancel_safe_futures.Poison.Error.{
  no_poison, panic_poison, cancel_poison, has_bit, LockResult, TryLockResult, poisoned, would_block,
  map_result,
}
use cancel_safe_futures.Poison.Flag.{Flag, borrow, get_flags}
use cancel_safe_futures.Poison.Flag
use cancel_safe_futures.Poison.Debug.{debug_flag}
use cancel_safe_futures.RobustMutex.Tokio.{TokioMutex}

module _ {T : Type 0} (tokio : TokioMutex T) where
  pub record RobustMutex : Type 0 where
    pub poison : Flag
    pub inner : tokio.Mutex

  -- The reference to the flag in the source's permit is to the flag of the one mutex.
  pub record ActionPermit : Type 0 where
    pub guard : tokio.Guard

  -- `ActionPermit::new`
  unfoldable pub permit : tokio.Guard → Flag → LockResult ActionPermit
  permit g poison = map_result (borrow poison) (λ _. record { guard = g })

  -- `new` and `const_new`
  unfoldable pub new : T → RobustMutex
  unfolding Flag.new
  new t = record { poison = Flag.new; inner = tokio.new t }

  -- `Default::default`, from that of the data.
  unfoldable pub default : T → RobustMutex
  unfolding new
  default data_default = new data_default

  -- `From::from`
  unfoldable pub from : T → RobustMutex
  unfolding new
  from t = new t

  -- `lock`: one poll of its future.
  unfoldable pub poll_lock :
      tokio.Lock → RobustMutex → Poll (LockResult ActionPermit) × tokio.Lock × RobustMutex
  unfolding permit
  poll_lock l m =
      let (got, l', inner) = tokio.poll_lock l m.inner in
      let m' = record m { inner = inner } in
      elim got [ pending ↦ (pending, l', m') | ready g ↦ (ready (permit g m.poison), l', m') ]

  -- `pending` while the call blocks.
  unfoldable pub blocking_lock :
      RobustMutex → Poll (Outcome (LockResult ActionPermit)) × RobustMutex
  unfolding permit
  blocking_lock m =
      let (got, inner) = tokio.blocking_lock m.inner in
      let m' = record m { inner = inner } in
      elim got [
        | pending ↦ (pending, m')
        | ready (returned g) ↦ (ready (returned (permit g m.poison)), m')
        | ready unwound ↦ (ready unwound, m')
      ]

  abbrev pub map_err : LockResult ActionPermit → TryLockResult ActionPermit
  map_err (ok p) = ok p
  map_err (err e) = err (poisoned e)

  unfoldable pub try_lock : RobustMutex → TryLockResult ActionPermit × RobustMutex
  unfolding permit
  try_lock m =
      let (got, inner) = tokio.try_lock m.inner in
      let m' = record m { inner = inner } in
      elim got [ some g ↦ (map_err (permit g m.poison), m') | none ↦ (err would_block, m') ]

  unfoldable pub is_poisoned : RobustMutex → Bool
  unfolding get_flags
  is_poisoned m = not (get_flags m.poison == no_poison)

  unfoldable pub is_panic_poisoned : RobustMutex → Bool
  unfolding get_flags
  is_panic_poisoned m = has_bit (get_flags m.poison) panic_poison

  unfoldable pub is_cancel_poisoned : RobustMutex → Bool
  unfolding get_flags
  is_cancel_poisoned m = has_bit (get_flags m.poison) cancel_poison

  -- A write through the reference that `get_mut` returns.
  unfoldable pub get_mut : T → RobustMutex → RobustMutex
  get_mut t m = record m { inner = tokio.write_mut t m.inner }

  unfoldable pub into_inner : RobustMutex → LockResult T
  into_inner m = let t = tokio.into_inner m.inner in map_result (borrow m.poison) (λ _. t)

  -- Dropping a permit drops its `MutexGuard`.
  unfoldable pub drop_permit : ActionPermit → RobustMutex → RobustMutex
  drop_permit p m = record m { inner = tokio.unlock p.guard m.inner }

  -- What `Debug::fmt` has to print: the data (`none` for "<locked>") and the text of the flags.
  -- What `try_lock` returned is dropped, and with it the guard.
  unfoldable pub debug : RobustMutex → (Option T × String) × RobustMutex
  unfolding try_lock drop_permit
  debug m =
      let (got, m') = try_lock m in
      elim got [
        | ok p ↦ ((some (tokio.value m'.inner), debug_flag m'.poison), drop_permit p m')
        | err (poisoned e) ↦ ((none, debug_flag m'.poison), drop_permit e.guard m')
        | err would_block ↦ ((none, debug_flag m'.poison), m')
      ]

  -- `Debug::fmt`
  unfoldable pub debug_mutex : (f : Formatter) → (T → f.Text) → RobustMutex → f.Text × RobustMutex
  unfolding debug
  debug_mutex f text m =
      let ((shown, flags), m') = debug m in
      let inner : f.Text = elim shown [ none ↦ f.text "<locked>" | some t ↦ text t ] in
      (
        f.finish (
            f.field "poisoned" (f.text flags)
              (f.field "data" inner (f.debug_struct "RobustMutex"))),
        m',
      )
