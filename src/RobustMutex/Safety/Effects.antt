-- ===== src/RobustMutex/Safety/Effects.antt =====
-- What a move that keeps, takes or frees the lock does to the invariant of src/sync/mutex.rs.
use mathlib.Core.Path.{subst}
use cancel_safe_futures.Base.{
  ◌≡◌, refl, sym, ap, ◌∙◌, true, false, Outcome, returned, unwound, is_unwound,
}
use cancel_safe_futures.Poison.Flag.{Flag, guard_assuming_no_poison}
use cancel_safe_futures.Poison.Laws.{IsFlag, done-clean}
use cancel_safe_futures.RobustMutex.Tokio.{TokioMutex}
use cancel_safe_futures.RobustMutex.Mutex.{RobustMutex, ActionPermit}
use cancel_safe_futures.RobustMutex.Permit.{new_poisoner, run_action}
use cancel_safe_futures.RobustMutex.Perform.{ActionFuture}
use cancel_safe_futures.RobustMutex.System.{Phase, idle, holding, finishing, Acquires, Restores}
use cancel_safe_futures.RobustMutex.Safety.Defs.{active, Same, Safe, Sound, Fit, Effect}
use cancel_safe_futures.RobustMutex.Safety.Attempts.{Acquires-effect}

module _ {T R : Type 0} (tokio : TokioMutex T) (boxed : ActionFuture T R) (P : T → Type 0)
    (J : boxed.Fut → T → Type 0) where
  -- The lock stays with the task that moves.
  pub kept :
      {m m' : RobustMutex tokio} {p p' : Phase tokio boxed}
      → Fit tokio boxed P J m p
      → active tokio boxed p ≡ true
      → IsFlag m'.poison
      → tokio.held m'.inner ≡ tokio.held m.inner
      → Sound tokio boxed P J m' p'
      → Effect tokio boxed P J m p m' p'
  kept f on flag same sound = record {
    fit = record {
      flag = flag;
      sound = sound;
      locked = λ _. same ∙ f.locked on;
      free = λ e. let q = same ∙ f.locked on in cc;
    };
    quiet = λ off. cc;
    taken = λ off. cc;
  }

  -- A task that does not own the lock moves, and nobody else sees it.
  pub calm :
      {m m' : RobustMutex tokio} {p p' : Phase tokio boxed}
      → Fit tokio boxed P J m p
      → active tokio boxed p' ≡ false
      → Same tokio boxed m m'
      → Sound tokio boxed P J m' p'
      → Effect tokio boxed P J m p m' p'
  calm f off same sound = record {
    fit = record {
      flag = subst IsFlag (sym same.0) f.flag;
      sound = sound;
      locked = λ on. cc;
      free = λ e z.
          subst P (sym same.1)
            (f.free (sym same.2 ∙ e) (ap (λ (x : Flag). x.failed) (sym same.0) ∙ z));
    };
    quiet = λ _ _. same;
    taken = λ _ on. cc;
  }

  -- The owner gives the lock back.
  pub freed :
      {m m' : RobustMutex tokio} {p p' : Phase tokio boxed}
      → active tokio boxed p ≡ true
      → active tokio boxed p' ≡ false
      → IsFlag m'.poison
      → Safe tokio boxed P m'
      → Sound tokio boxed P J m' p'
      → Effect tokio boxed P J m p m' p'
  freed on off flag safe sound = record {
    fit = record { flag = flag; sound = sound; locked = λ e. cc; free = λ _. safe };
    quiet = λ e. cc;
    taken = λ e. cc;
  }

  -- A task takes the lock, and finds the data as the last owner left them.
  pub acquire-effect :
      {m m' : RobustMutex tokio} {p : ActionPermit tokio}
      → Fit tokio boxed P J m idle
      → Acquires tokio boxed m p m'
      → Effect tokio boxed P J m idle m' (holding p)
  acquire-effect {m} f a =
      let e = Acquires-effect tokio boxed a in
      record {
        fit = record {
          flag = subst IsFlag (sym e.0) f.flag;
          sound = λ z. subst P (sym e.1) (f.free e.2 (ap (λ (x : Flag). x.failed) (sym e.0) ∙ z));
          locked = λ _. e.3;
          free = λ z. let q = e.3 in cc;
        };
        quiet = λ _ off. cc;
        taken = λ _ _. e.2;
      }

  -- The mutex after a write of `t` through the guard `g`.
  abbrev pub written : RobustMutex tokio → tokio.Guard → T → RobustMutex tokio
  written m g t = record m { inner = tokio.write g t m.inner }

  pub Safe-written :
      (Q : T → Type 0) (m : RobustMutex tokio) (g : tokio.Guard) (t : T)
      → (m.poison.failed ≡ 0 → Q t)
      → Safe tokio boxed Q (written m g t)
  Safe-written Q m g t h e = subst Q (sym (tokio.write_law g t m.inner).0) (h e)

  restored : (o : Outcome R × T) → Restores tokio boxed P J o → is_unwound o.0 ≡ false → P o.1
  restored (returned r, t) h e = h
  restored (unwound, t) h e = cc

  pub perform-effect :
      {m : RobustMutex tokio} {p : ActionPermit tokio} (action : T → Outcome R × T)
      → ((t : T) → P t → Restores tokio boxed P J (action t))
      → Fit tokio boxed P J m (holding p)
      → Effect tokio boxed P J m
          (holding p)
          (run_action tokio p action m).1
          (finishing p (new_poisoner false) (is_unwound (run_action tokio p action m).0))
  unfolding run_action new_poisoner guard_assuming_no_poison
  perform-effect {m} {p} action restores f =
      let o = action (tokio.value m.inner) in
      kept f refl f.flag (tokio.write_law p.guard o.1 m.inner).1 λ e.
        let c = done-clean m.poison _ (is_unwound o.0) false f.flag e in
        subst P (sym (tokio.write_law p.guard o.1 m.inner).0)
          (restored o (restores _ (f.sound c.0)) c.1)
