-- ===== src/RobustMutex/Safety/Unlocking.antt =====
-- src/sync/mutex.rs: a lock that is held becomes free again.
use mathlib.Core.Path.{subst}
use cancel_safe_futures.Base.{ℕ, ◌≡◌, inl, inr, refl, sym, Bool, true, false, Bool-cases}
use cancel_safe_futures.RobustMutex.Tokio.{TokioMutex}
use cancel_safe_futures.RobustMutex.Mutex.{RobustMutex, ActionPermit, new, drop_permit}
use cancel_safe_futures.RobustMutex.Perform.{
  ActionFuture, AsyncPoisoner, PerformFuture, unresumed, suspended, finished, awaits, leaves,
  absent, abandon,
}
use cancel_safe_futures.RobustMutex.System.{
  Phase, idle, holding, finishing, working, exiting, releasing, System, Move, discard, finish,
  cancel, stay, leave, release, Step, pick, Reach, here, next, init, update,
}
use cancel_safe_futures.RobustMutex.Safety.Defs.{active}
use cancel_safe_futures.RobustMutex.Safety.Owner.{update_same, IsOwned, Reach-IsOwned}

module _ {T R : Type 0} (tokio : TokioMutex T) (boxed : ActionFuture T R) (P : T → Type 0)
    (J : boxed.Fut → T → Type 0) where
  -- The lock becomes free by some steps.
  pub record Unlocked (s : System tokio boxed) : Type 0 where
    pub state : System tokio boxed
    pub reach : Reach tokio boxed P J s state
    pub free : tokio.held state.mutex.inner ≡ false

  Reach-cons :
      {s t u : System tokio boxed}
      → Step tokio boxed P J s t
      → Reach tokio boxed P J t u
      → Reach tokio boxed P J s u
  Reach-cons st here = next here st
  Reach-cons st (next r last) = next (Reach-cons st r) last

  abbrev moved : System tokio boxed → ℕ → RobustMutex tokio → Phase tokio boxed → System tokio boxed
  moved s i m p = record { mutex = m; tasks = update s.tasks i p }

  -- A move of task `i`, after which the lock becomes free.
  move-Unlocked :
      (s : System tokio boxed) (i : ℕ) (p : Phase tokio boxed) {m : RobustMutex tokio}
      {p' : Phase tokio boxed}
      → s.tasks i ≡ p
      → Move tokio boxed P J s.mutex p m p'
      → Unlocked (moved s i m p')
      → Unlocked s
  move-Unlocked s i p {m} {p'} e mv u = record {
    state = u.state;
    reach =
        Reach-cons (pick i (subst (λ q. Move tokio boxed P J s.mutex q m p') (sym e) mv)) u.reach;
    free = u.free;
  }

  releasing-Unlocked :
      (s : System tokio boxed) (i : ℕ) (p : ActionPermit tokio)
      → s.tasks i ≡ releasing p
      → Unlocked s
  unfolding drop_permit
  releasing-Unlocked s i p e =
      move-Unlocked s i (releasing p) e release
        (record { state = _; reach = here; free = (tokio.unlock_law p.guard s.mutex.inner).1 })

  leaves-Unlocked :
      (s : System tokio boxed) (i : ℕ) (p : ActionPermit tokio) (z : AsyncPoisoner) (now : Bool)
      → s.tasks i ≡ exiting (leaves p z now)
      → Unlocked s
  leaves-Unlocked s i p z now e = move-Unlocked s i (exiting (leaves p z now)) e leave (
      releasing-Unlocked (moved s i _ (releasing p)) i p
        (update_same tokio boxed s.tasks i (releasing p)))

  working-Unlocked :
      (s : System tokio boxed) (i : ℕ) (f : PerformFuture tokio boxed)
      → s.tasks i ≡ working f
      → active tokio boxed (working f) ≡ true
      → Unlocked s
  unfolding abandon drop_permit
  working-Unlocked s i (unresumed p action) e on =
      move-Unlocked s i (working (unresumed p action)) e (cancel false)
        (record { state = _; reach = here; free = (tokio.unlock_law p.guard s.mutex.inner).1 })
  working-Unlocked s i (suspended p z fut) e on =
      move-Unlocked s i (working (suspended p z fut)) e (cancel false) (
        leaves-Unlocked (moved s i _ (exiting (leaves p z false))) i p z false
          (update_same tokio boxed s.tasks i (exiting (leaves p z false))))
  working-Unlocked s i finished e on = cc

  active-Unlocked :
      (s : System tokio boxed) (i : ℕ) (q : Phase tokio boxed)
      → s.tasks i ≡ q
      → active tokio boxed q ≡ true
      → Unlocked s
  active-Unlocked s i idle e on = cc
  active-Unlocked s i (holding p) e on = move-Unlocked s i (holding p) e discard (
      releasing-Unlocked (moved s i s.mutex (releasing p)) i p
        (update_same tokio boxed s.tasks i (releasing p)))
  active-Unlocked s i (finishing p z now) e on = move-Unlocked s i (finishing p z now) e finish (
      releasing-Unlocked (moved s i _ (releasing p)) i p
        (update_same tokio boxed s.tasks i (releasing p)))
  active-Unlocked s i (working f) e on = working-Unlocked s i f e on
  active-Unlocked s i (exiting (awaits p z fut)) e on =
      let work = working (suspended p z fut) in
      move-Unlocked s i (exiting (awaits p z fut)) e stay (
        working-Unlocked (moved s i s.mutex work) i (suspended p z fut)
          (update_same tokio boxed s.tasks i work) refl)
  active-Unlocked s i (exiting (leaves p z now)) e on = leaves-Unlocked s i p z now e
  active-Unlocked s i (exiting absent) e on = cc
  active-Unlocked s i (releasing p) e on = releasing-Unlocked s i p e

  -- The lock is not leaked: in every reachable state, if the lock is held then a task owns it, and
  -- there are steps that make the lock free, whatever actions have panicked and whatever futures
  -- have been dropped before. Synchronous actions start on threads that are not panicking.
  pub Reach-Unlocked :
      {s : System tokio boxed} (t : T)
      → Reach tokio boxed P J (init tokio boxed t) s
      → IsOwned tokio boxed P J s × Unlocked s
  unfolding new
  Reach-Unlocked {s} t r =
      let owned = Reach-IsOwned tokio boxed P J r (λ e. let free = tokio.held-new t in cc) in
      (
        owned,
        elim (Bool-cases (tokio.held s.mutex.inner)) [
          | inl taken ↦ let o = owned taken in active-Unlocked s o.task (s.tasks o.task) refl o.owns
          | inr free ↦ record { state = s; reach = here; free = free }
        ],
      )
