-- ===== src/RobustMutex/Tokio.antt =====
-- What `RobustMutex` uses of `tokio::sync::Mutex`, which is not part of the crate: its operations
-- as functions on the mutex, and its documented behaviour.
use cancel_safe_futures.Base.{
  ◌≡◌, Bool, true, false, Option, none, some, Poll, pending, ready, Outcome, returned, unwound,
}

-- An attempt to lock: it leaves the data alone, and gives a guard only if none is out.
abbrev pub Attempt : {M G T : Type 0} → (M → Bool) → (M → T) → M → Option G → M → Type 0
Attempt held value m none m' = (value m' ≡ value m) × (held m' ≡ held m)
Attempt held value m (some g) m' = (value m' ≡ value m) × (held m ≡ false) × (held m' ≡ true)

abbrev pub polled : {G : Type 0} → Poll G → Option G
polled pending = none
polled (ready g) = some g

abbrev pub blocked : {G : Type 0} → Poll (Outcome G) → Option G
blocked pending = none
blocked (ready (returned g)) = some g
blocked (ready unwound) = none

pub record TokioMutex (T : Type 0) : Type 1 where
  pub Mutex : Type 0
  -- `MutexGuard`
  pub Guard : Type 0
  -- the future that `lock` returns
  pub Lock : Type 0
  pub new : T → Mutex
  pub lock : Mutex → Lock
  pub poll_lock : Lock → Mutex → Poll Guard × Lock × Mutex
  pub drop_lock : Lock → Mutex → Mutex
  -- `pending` while the call blocks; it panics in an asynchronous context
  pub blocking_lock : Mutex → Poll (Outcome Guard) × Mutex
  pub try_lock : Mutex → Option Guard × Mutex
  -- the guarded data, and a write through a guard or through `get_mut`
  pub value : Mutex → T
  pub write : Guard → T → Mutex → Mutex
  pub write_mut : T → Mutex → Mutex
  pub unlock : Guard → Mutex → Mutex
  pub into_inner : Mutex → T
  -- whether a guard is out
  pub held : Mutex → Bool
  pub value-new : (t : T) → value (new t) ≡ t
  pub held-new : (t : T) → held (new t) ≡ false
  pub poll_lock_law :
      (l : Lock) (m : Mutex) → Attempt held value m (polled (poll_lock l m).0) (poll_lock l m).2
  pub drop_lock_law :
      (l : Lock) (m : Mutex) → (value (drop_lock l m) ≡ value m) × (held (drop_lock l m) ≡ held m)
  pub blocking_lock_law :
      (m : Mutex) → Attempt held value m (blocked (blocking_lock m).0) (blocking_lock m).1
  pub try_lock_law : (m : Mutex) → Attempt held value m (try_lock m).0 (try_lock m).1
  pub write_law :
      (g : Guard) (t : T) (m : Mutex) → (value (write g t m) ≡ t) × (held (write g t m) ≡ held m)
  pub write_mut_law :
      (t : T) (m : Mutex) → (value (write_mut t m) ≡ t) × (held (write_mut t m) ≡ held m)
  pub unlock_law :
      (g : Guard) (m : Mutex) → (value (unlock g m) ≡ value m) × (held (unlock g m) ≡ false)
  pub into_inner_law : (m : Mutex) → into_inner m ≡ value m
