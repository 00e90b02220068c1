-- ===== src/RobustMutex/Session.antt =====
-- src/sync/mutex.rs: a client that owns a `RobustMutex` uses it from `new` to `into_inner`. The
-- client takes the lock with `try_lock`, and goes on when the mutex is poisoned.
use mathlib.Core.Path.{subst, ap₂}
use cancel_safe_futures.Base.{
  ◌≡◌, ◌≢◌, refl, sym, ap, ◌∙◌, Bool, false, ◌||◌, List, [], ◌∷◌, none, some, ok, err, arith,
}
use cancel_safe_futures.Poison.Error.{
  has_bit, panic_poison, cancel_poison, LockResult, TryLockResult, poisoned, would_block, is_panic,
  is_cancel, into_inner, map_result,
}
use cancel_safe_futures.Poison.Flag.{borrow, new as clean_flag}
use cancel_safe_futures.Poison.Laws.{IsFlag, any_bit}
use cancel_safe_futures.RobustMutex.Tokio.{TokioMutex}
use cancel_safe_futures.RobustMutex.Mutex.{
  RobustMutex, ActionPermit, new, try_lock, into_inner as unwrap_mutex, is_poisoned,
  is_panic_poisoned, is_cancel_poisoned,
}
use cancel_safe_futures.RobustMutex.Locking.{TryLocked, try_lock_lem, Unwrapped, into_inner_lem}
use cancel_safe_futures.RobustMutex.Perform.{ActionFuture}
use cancel_safe_futures.RobustMutex.Client.{
  Op, run, run_async, overwrite, Response, Spec, report, spec, locked, call,
}
use cancel_safe_futures.RobustMutex.Refinement.{Related, Free}
use cancel_safe_futures.RobustMutex.Calls.{
  Refined, get_mut-Free, with_permit-Refined, clean_report, poisoned_report,
}

module _ {T R : Type 0} (tokio : TokioMutex T) (boxed : ActionFuture T R) where
  -- The calls of the list, each with whether the thread is panicking, and what they answer.
  unfoldable pub calls :
      List (Bool × Op boxed) → RobustMutex tokio → List (Response boxed) × RobustMutex tokio
  calls [] m = ([], m)
  calls ((now, op) ∷ ops) m =
      let (r, m1) = call tokio boxed now op m in let (rs, m2) = calls ops m1 in (r ∷ rs, m2)

  unfoldable pub replay : List (Bool × Op boxed) → Spec boxed → List (Response boxed) × Spec boxed
  replay [] s = ([], s)
  replay ((now, op) ∷ ops) s =
      let (r, s1) = spec boxed now op s in let (rs, s2) = replay ops s1 in (r ∷ rs, s2)

  abbrev pub fresh : T → Spec boxed
  fresh t = record { value = t; panicked = false; cancelled = false }

  -- What a free lock gives to `try_lock`.
  abbrev pub Prompt : Type 0
  Prompt = (c : tokio.Mutex) → tokio.held c ≡ false → (tokio.try_lock c).0 ≢ none

  -- The value of the cell, in an error that names its marks if there are any.
  abbrev pub Yields : Spec boxed → LockResult T → Type 0
  Yields s (ok t) = (report boxed s ≡ none) × (t ≡ s.value)
  Yields s (err e) = (report boxed s ≡ some (is_panic e, is_cancel e)) × (into_inner e ≡ s.value)

  kept-Related :
      (m m' : RobustMutex tokio) (s : Spec boxed)
      → m'.poison ≡ m.poison
      → tokio.value m'.inner ≡ tokio.value m.inner
      → Related tokio boxed m s
      → Related tokio boxed m' s
  unfolding is_panic_poisoned is_cancel_poisoned
  kept-Related m m' s e v h = record {
    value = v ∙ h.value;
    panicked = ap (λ f. has_bit f.failed panic_poison) e ∙ h.panicked;
    cancelled = ap (λ f. has_bit f.failed cancel_poison) e ∙ h.cancelled;
    flag = subst IsFlag (sym e) h.flag;
  }

  locked-Refined :
      (now : Bool) (op : Op boxed) (m : RobustMutex tokio) (s : Spec boxed)
      (q : TryLockResult (ActionPermit tokio) × RobustMutex tokio)
      → Related tokio boxed m s
      → q.0 ≢ err would_block
      → TryLocked tokio m q
      → Refined tokio boxed now op s (locked tokio boxed now op q)
  unfolding locked
  locked-Refined now op m s (ok p, m') h free ((e, v), clean, l) =
      with_permit-Refined tokio boxed now op none p m' s (clean_report tokio boxed m s h clean)
        (kept-Related m m' s e v h)
  locked-Refined now op m s (err (poisoned e), m') h free ((b, v), (dirty, panic, cancel), l) =
      with_permit-Refined tokio boxed now op (some (is_panic e, is_cancel e)) (into_inner e) m' s
        (poisoned_report tokio boxed m s (is_panic e) (is_cancel e) h dirty panic cancel)
        (kept-Related m m' s b v h)
  locked-Refined now op m s (err would_block, m') h free t = absurd (free refl)

  free-answers :
      Prompt
      → (m : RobustMutex tokio) → tokio.held m.inner ≡ false
      → (try_lock tokio m).0 ≢ err would_block
  unfolding try_lock map_result borrow
  free-answers prompt m free = grind (arith, prompt m.inner free)

  -- A call of a client whose mutex is free is not blocked. It answers what the marked cell answers,
  -- with the marks that the cell had before the call, changes value and marks as the cell does, and
  -- leaves the lock free. This holds if `try_lock` of the tokio mutex gives a guard whenever none
  -- is out.
  pub call-Refined :
      Prompt
      → (now : Bool) (op : Op boxed) (m : RobustMutex tokio) (s : Spec boxed) → Free tokio boxed m s
      → Refined tokio boxed now op s (call tokio boxed now op m)
  unfolding call spec
  call-Refined prompt now (run action) m s (free, h) =
      locked-Refined now (run action) m s (try_lock tokio m) h (free-answers prompt m free)
        (try_lock_lem tokio m h.flag)
  call-Refined prompt now (run_async action n) m s (free, h) =
      locked-Refined now (run_async action n) m s (try_lock tokio m) h (free-answers prompt m free)
        (try_lock_lem tokio m h.flag)
  call-Refined prompt now (overwrite t) m s h = (refl, get_mut-Free tokio boxed t m s h)

  calls-replay :
      Prompt
      → (ops : List (Bool × Op boxed)) (m : RobustMutex tokio) (s : Spec boxed)
      → Free tokio boxed m s
      → ((calls ops m).0 ≡ (replay ops s).0) × Free tokio boxed (calls ops m).1 (replay ops s).1
  unfolding calls replay
  calls-replay prompt [] m s h = (refl, h)
  calls-replay prompt ((now, op) ∷ ops) m s h =
      let l = call-Refined prompt now op m s h in
      let rest = calls-replay prompt ops _ _ l.1 in (ap₂ (λ x y. x ∷ y) l.0 rest.0, rest.1)

  new-Free : (t : T) → Free tokio boxed (new tokio t) (fresh t)
  unfolding new clean_flag is_panic_poisoned is_cancel_poisoned
  new-Free t = (
    tokio.held-new t,
    record { value = tokio.value-new t; panicked = refl; cancelled = refl; flag = omega arith },
  )

  yield_result :
      (m : RobustMutex tokio) (s : Spec boxed) (r : LockResult T)
      → Related tokio boxed m s
      → Unwrapped tokio m r
      → Yields s r
  yield_result m s (ok t) h (clean, e) = (sym (clean_report tokio boxed m s h clean), e ∙ h.value)
  yield_result m s (err x) h ((dirty, panic, cancel), e) = (
    sym (poisoned_report tokio boxed m s (is_panic x) (is_cancel x) h dirty panic cancel),
    e ∙ h.value,
  )

  -- A client that owns the mutex makes any sequence of calls on a new one. The answers are those of
  -- the marked cell; in particular no call is blocked, and none is refused because of a mark.
  -- Afterwards the mutex is poisoned exactly if the cell has a mark, and `into_inner` gives the
  -- cell's value: as a success if there is no mark, else in an error that names the marks. This
  -- holds if `try_lock` of the tokio mutex gives a guard whenever none is out.
  pub calls-into_inner :
      Prompt
      → (t : T) (ops : List (Bool × Op boxed))
      → let (rs, m) = calls ops (new tokio t) in
        let (rs₀, s) = replay ops (fresh t) in
        (rs ≡ rs₀)
        × (is_poisoned tokio m ≡ (s.panicked || s.cancelled))
        × Yields s (unwrap_mutex tokio m)
  unfolding is_poisoned is_panic_poisoned is_cancel_poisoned
  calls-into_inner prompt t ops =
      let l = calls-replay prompt ops (new tokio t) (fresh t) (new-Free t) in
      let m = (calls ops (new tokio t)).1 in
      let h = l.1.1 in
      (
        l.0,
        any_bit m.poison.failed h.flag ∙ ap₂ (λ x y. x || y) h.panicked h.cancelled,
        yield_result m (replay ops (fresh t)).1 (unwrap_mutex tokio m) h (into_inner_lem tokio m),
      )
