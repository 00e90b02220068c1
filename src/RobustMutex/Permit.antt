-- ===== src/RobustMutex/Permit.antt =====
-- src/sync/mutex.rs: `ActionPermit::perform` and the drop guard that sets the poison flag. An
-- action returns how it ended and the data that it left; `panicking` is `thread::panicking()` on
-- entry.
use cancel_safe_futures.Base.{Bool, false, ◌||◌, Outcome, is_unwound}
use cancel_safe_futures.Poison.Flag.{Guard, guard_assuming_no_poison, done}
use cancel_safe_futures.RobustMutex.Tokio.{TokioMutex}
use cancel_safe_futures.RobustMutex.Mutex.{RobustMutex, ActionPermit, drop_permit}

pub record Poisoner : Type 0 where
  pub poison_guard : Guard

unfoldable pub new_poisoner : Bool → Poisoner
unfolding guard_assuming_no_poison
new_poisoner panicking = record { poison_guard = guard_assuming_no_poison panicking }

module _ {T : Type 0} (tokio : TokioMutex T) where
  -- `<Poisoner as Drop>::drop`
  unfoldable pub drop_poisoner : Poisoner → Bool → RobustMutex tokio → RobustMutex tokio
  drop_poisoner z panicking m = record m { poison = done m.poison z.poison_guard panicking false }

  -- `action(&mut *self.guard)`
  unfoldable pub run_action {κ} :
      {R : Type κ}
      → ActionPermit tokio
      → (T → Outcome R × T)
      → RobustMutex tokio
      → Outcome R × RobustMutex tokio
  run_action p action m =
      let (out, t) = action (tokio.value m.inner) in
      (out, record m { inner = tokio.write p.guard t m.inner })

  -- The locals are dropped in reverse order of their declaration: `_poisoner`, then `self`.
  unfoldable pub perform {κ} :
      {R : Type κ}
      → Bool
      → ActionPermit tokio
      → (T → Outcome R × T)
      → RobustMutex tokio
      → Outcome R × RobustMutex tokio
  unfolding new_poisoner drop_poisoner run_action drop_permit
  perform panicking p action m =
      let poisoner = new_poisoner panicking in
      let (out, m1) = run_action p action m in
      let m2 = drop_poisoner poisoner (panicking || is_unwound out) m1 in
      (out, drop_permit tokio p m2)
