-- ===== src/RobustMutex/Safety/Defs.antt =====
-- The invariant of a shared mutex: who holds the lock, and what the data may be while the flag is
-- clean.
use cancel_safe_futures.Base.{ℕ, ◌≡◌, Bool, true, false, not}
use cancel_safe_futures.Poison.Flag.{Flag, done}
use cancel_safe_futures.Poison.Laws.{IsFlag}
use cancel_safe_futures.RobustMutex.Tokio.{TokioMutex}
use cancel_safe_futures.RobustMutex.Mutex.{RobustMutex}
use cancel_safe_futures.RobustMutex.Perform.{
  ActionFuture, unresumed, suspended, finished, awaits, leaves, absent,
}
use cancel_safe_futures.RobustMutex.System.{
  Phase, idle, holding, finishing, working, exiting, releasing, System, Starts,
}

module _ {T R : Type 0} (tokio : TokioMutex T) (boxed : ActionFuture T R) where
  -- Whether the task owns the lock.
  abbrev pub active : Phase tokio boxed → Bool
  active idle = false
  active (working finished) = false
  active (exiting absent) = false
  active _ = true

  -- The same to every other task: the flag, the data, and whether the lock is held.
  abbrev pub Same : RobustMutex tokio → RobustMutex tokio → Type 0
  Same m m' =
      (m'.poison ≡ m.poison)
      × (tokio.value m'.inner ≡ tokio.value m.inner)
      × (tokio.held m'.inner ≡ tokio.held m.inner)

  abbrev pub Safe : (T → Type 0) → RobustMutex tokio → Type 0
  Safe Q m = m.poison.failed ≡ 0 → Q (tokio.value m.inner)

  module _ (P : T → Type 0) (J : boxed.Fut → T → Type 0) where
    -- What the owner of the lock guarantees. On the way out the flag counts as the drop leaves it.
    abbrev pub SoundAt : Flag → T → Phase tokio boxed → Type 0
    SoundAt f v (holding p) = f.failed ≡ 0 → P v
    SoundAt f v (releasing p) = f.failed ≡ 0 → P v
    SoundAt f v (finishing p z now) = (done f z.poison_guard now false).failed ≡ 0 → P v
    SoundAt f v (working (unresumed p action)) =
        (f.failed ≡ 0 → P v) × ((t : T) → P t → Starts tokio boxed P J (action t))
    SoundAt f v (working (suspended p z fut)) = (z.terminated ≡ false) × (f.failed ≡ 0 → J fut v)
    SoundAt f v (exiting (awaits p z fut)) = (z.terminated ≡ false) × (f.failed ≡ 0 → J fut v)
    SoundAt f v (exiting (leaves p z now)) =
        (done f z.poison_guard now (not z.terminated)).failed ≡ 0 → P v
    SoundAt f v _ = Unit

    abbrev pub Sound : RobustMutex tokio → Phase tokio boxed → Type 0
    Sound m = SoundAt m.poison (tokio.value m.inner)

    -- One task and the mutex.
    pub record Fit (m : RobustMutex tokio) (p : Phase tokio boxed) : Type 0 where
      pub flag : IsFlag m.poison
      pub sound : Sound m p
      pub locked : active p ≡ true → tokio.held m.inner ≡ true
      pub free : tokio.held m.inner ≡ false → Safe P m

    -- After a move of one task, what the others see.
    pub record Effect (m : RobustMutex tokio) (p : Phase tokio boxed) (m' : RobustMutex tokio)
        (p' : Phase tokio boxed) : Type 0 where
      pub fit : Fit m' p'
      pub quiet : active p ≡ false → active p' ≡ false → Same m m'
      pub taken : active p ≡ false → active p' ≡ true → tokio.held m.inner ≡ false

    pub record Inv (s : System tokio boxed) : Type 0 where
      pub fits : (i : ℕ) → Fit s.mutex (s.tasks i)
      pub alone : (i j : ℕ) → active (s.tasks i) ≡ true → active (s.tasks j) ≡ true → i ≡ j
