-- ===== src/RobustMutex/System.antt =====
-- src/sync/mutex.rs: any number of tasks that share one `RobustMutex`, interleaved between the
-- critical section and the drops that end it. `P` is the invariant of the data that the tasks rely
-- on, `J` what an unfinished action's future keeps true at its await points.
use cancel_safe_futures.Base.{
  ℕ, ◌≡◌, Bool, false, ok, err, Poll, pending, ready, Outcome, returned, unwound, is_unwound, ◌==◌,
  if◌then◌else◌,
}
use cancel_safe_futures.Poison.Error.{PoisonError, LockResult, poisoned, would_block, into_inner}
use cancel_safe_futures.RobustMutex.Tokio.{TokioMutex}
use cancel_safe_futures.RobustMutex.Mutex.{
  RobustMutex, ActionPermit, new, poll_lock, blocking_lock, try_lock, get_mut, debug, drop_permit,
}
use cancel_safe_futures.RobustMutex.Permit.{Poisoner, new_poisoner, drop_poisoner, run_action}
use cancel_safe_futures.RobustMutex.Perform.{
  ActionFuture, AsyncPoisoner, PerformFuture, Exit, awaits, leaves, absent, suspended, Closure,
  perform_async_boxed, drop_async_poisoner, resume, abandon,
}

abbrev pub update {ℓ} : {A : Type ℓ} → (ℕ → A) → ℕ → A → ℕ → A
update f i a j = if i == j then a else f j

module _ {T R : Type 0} (tokio : TokioMutex T) (boxed : ActionFuture T R) where
  -- Where one task stands.
  pub data Phase : Type 0 where
    idle : Phase
    holding : ActionPermit tokio → Phase
    -- `perform` between the action and the drop of `_poisoner`
    finishing : ActionPermit tokio → Poisoner → Bool → Phase
    -- the future of `perform_async_boxed`, between two polls
    working : PerformFuture tokio boxed → Phase
    -- the same, before the drop of `poisoner`
    exiting : Exit tokio boxed → Phase
    -- before the drop of the permit's guard
    releasing : ActionPermit tokio → Phase

  pub record System : Type 0 where
    pub mutex : RobustMutex tokio
    pub tasks : ℕ → Phase

  -- The permit of a lock result: a client may take it out of a poison error.
  abbrev pub permit_of : LockResult (ActionPermit tokio) → ActionPermit tokio
  permit_of (ok p) = p
  permit_of (err e) = into_inner e

  -- A call that ends with a permit.
  pub data Acquires (m : RobustMutex tokio) : ActionPermit tokio → RobustMutex tokio → Type 0 where
    by_lock :
        (l : tokio.Lock) (r : LockResult (ActionPermit tokio))
        → (poll_lock tokio l m).0 ≡ ready r
        → Acquires m (permit_of r) (poll_lock tokio l m).2
    by_blocking_lock :
        (r : LockResult (ActionPermit tokio))
        → (blocking_lock tokio m).0 ≡ ready (returned r)
        → Acquires m (permit_of r) (blocking_lock tokio m).1
    by_try_lock :
        (p : ActionPermit tokio) → (try_lock tokio m).0 ≡ ok p → Acquires m p (try_lock tokio m).1
    by_poisoned_try_lock :
        (e : PoisonError (ActionPermit tokio))
        → (try_lock tokio m).0 ≡ err (poisoned e)
        → Acquires m (into_inner e) (try_lock tokio m).1

  -- A call that ends with none, or does not end.
  pub data Misses (m : RobustMutex tokio) : RobustMutex tokio → Type 0 where
    lock_pending :
        (l : tokio.Lock) → (poll_lock tokio l m).0 ≡ pending → Misses m (poll_lock tokio l m).2
    lock_dropped : (l : tokio.Lock) → Misses m (record m { inner = tokio.drop_lock l m.inner })
    blocking_lock_blocked : (blocking_lock tokio m).0 ≡ pending → Misses m (blocking_lock tokio m).1
    blocking_lock_panicked :
        (blocking_lock tokio m).0 ≡ ready unwound → Misses m (blocking_lock tokio m).1
    try_lock_refused : (try_lock tokio m).0 ≡ err would_block → Misses m (try_lock tokio m).1
    printed : Misses m (debug tokio m).1

  module _ (P : T → Type 0) (J : boxed.Fut → T → Type 0) where
    -- What a client owes: an action that returns restores `P`. It may leave any data if it panics.
    abbrev pub Restores : Outcome R × T → Type 0
    Restores (returned r, t) = P t
    Restores (unwound, t) = Unit

    abbrev pub Starts : Outcome boxed.Fut × T → Type 0
    Starts (returned fut, t) = J fut t
    Starts (unwound, t) = Unit

    abbrev pub Continues : Outcome (Poll R) × boxed.Fut × T → Type 0
    Continues (returned pending, fut, t) = J fut t
    Continues (returned (ready r), fut, t) = P (boxed.drop fut t)
    Continues (unwound, fut, t) = Unit

    -- One step of a task: the mutex and the task's phase, before and after. The thread is not
    -- panicking when a synchronous action starts; an asynchronous one may be polled on any thread.
    pub data Move (m : RobustMutex tokio) : Phase → RobustMutex tokio → Phase → Type 0 where
      acquire :
          {p : ActionPermit tokio} {m' : RobustMutex tokio}
          → Acquires m p m'
          → Move m idle m' (holding p)
      miss : {m' : RobustMutex tokio} → Misses m m' → Move m idle m' idle
      discard : {p : ActionPermit tokio} → Move m (holding p) m (releasing p)
      perform :
          {p : ActionPermit tokio} (action : T → Outcome R × T)
          → ((t : T) → P t → Restores (action t))
          → Move m
              (holding p)
              (run_action tokio p action m).1
              (finishing p (new_poisoner false) (is_unwound (run_action tokio p action m).0))
      finish :
          {p : ActionPermit tokio} {z : Poisoner} {now : Bool}
          → Move m (finishing p z now) (drop_poisoner tokio z now m) (releasing p)
      start :
          {p : ActionPermit tokio} (action : Closure tokio boxed)
          → ((t : T) → P t → Starts (action t))
          → Move m (holding p) m (working (perform_async_boxed tokio boxed p action))
      poll :
          {f : PerformFuture tokio boxed} (panicking : Bool)
          → Move m
              (working f)
              (resume tokio boxed panicking f m).2
              (exiting (resume tokio boxed panicking f m).1)
      cancel :
          {f : PerformFuture tokio boxed} (panicking : Bool)
          → Move m
              (working f)
              (abandon tokio boxed panicking f m).1
              (exiting (abandon tokio boxed panicking f m).0)
      stay :
          {p : ActionPermit tokio} {z : AsyncPoisoner} {fut : boxed.Fut}
          → Move m (exiting (awaits p z fut)) m (working (suspended p z fut))
      leave :
          {p : ActionPermit tokio} {z : AsyncPoisoner} {now : Bool}
          → Move m
              (exiting (leaves p z now))
              (drop_async_poisoner tokio boxed z now m)
              (releasing p)
      gone : Move m (exiting absent) m idle
      release : {p : ActionPermit tokio} → Move m (releasing p) (drop_permit tokio p m) idle

    -- A task moves, or the owner of the mutex writes through `get_mut`, which excludes all tasks.
    pub data Step (s : System) : System → Type 0 where
      pick :
          (i : ℕ) {m : RobustMutex tokio} {p : Phase}
          → Move s.mutex (s.tasks i) m p
          → Step s (record { mutex = m; tasks = update s.tasks i p })
      write_mut :
          (t : T)
          → ((i : ℕ) → s.tasks i ≡ idle)
          → P t
          → Step s (record s { mutex = get_mut tokio t s.mutex })

    pub data Reach (s : System) : System → Type 0 where
      here : Reach s s
      next : {t u : System} → Reach s t → Step t u → Reach s u

  abbrev pub init : T → System
  init t = record { mutex = new tokio t; tasks = λ _. idle }
