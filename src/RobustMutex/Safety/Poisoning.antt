-- ===== src/RobustMutex/Safety/Poisoning.antt =====
-- The moves of a task, and the bits of the poison flag.
use mathlib.Core.Path.{subst}
use cancel_safe_futures.Base.{ℕ, ◌≡◌, ◌⊎◌, refl, sym, Bool, true, arith}
use cancel_safe_futures.Poison.Error.{has_bit, panic_poison, cancel_poison}
use cancel_safe_futures.Poison.Flag.{Flag, Guard, done}
use cancel_safe_futures.Poison.Laws.{IsFlag, done-has_bit}
use cancel_safe_futures.RobustMutex.Tokio.{TokioMutex}
use cancel_safe_futures.RobustMutex.Mutex.{RobustMutex, drop_permit, get_mut}
use cancel_safe_futures.RobustMutex.Permit.{drop_poisoner, run_action}
use cancel_safe_futures.RobustMutex.Perform.{
  ActionFuture, PerformFuture, unresumed, suspended, finished, drop_async_poisoner, resume, abandon,
}
use cancel_safe_futures.RobustMutex.System.{
  Phase, System, Step, pick, write_mut, Reach, here, next, Move, acquire, miss, discard, perform,
  finish, start, poll, cancel, stay, leave, gone, release, Continues,
}
use cancel_safe_futures.RobustMutex.Safety.Defs.{Inv}
use cancel_safe_futures.RobustMutex.Safety.Attempts.{Acquires-effect, Misses-Same}
use cancel_safe_futures.RobustMutex.Safety.Steps.{Reach-Inv}

-- A flag is left alone, or is what `done` makes of it.
data Marks (f : Flag) (f' : Flag) : Type 0 where
  untouched : f' ≡ f → Marks f f'
  marked : (g : Guard) (now cancel : Bool) → f' ≡ done f g now cancel → Marks f f'

Marks-has_bit :
    {f f' : Flag} (mask : ℕ)
    → IsFlag f
    → Marks f f'
    → (mask ≡ panic_poison) ⊎ (mask ≡ cancel_poison)
    → has_bit f.failed mask ≡ true
    → has_bit f'.failed mask ≡ true
Marks-has_bit {f} {f'} mask flag (untouched e) which h =
    subst (λ (c : Flag). has_bit c.failed mask ≡ true) (sym e) h
Marks-has_bit {f} {f'} mask flag (marked g now c e) which h =
    ground (arith, done-has_bit f g now c flag)

module _ {T R : Type 0} (tokio : TokioMutex T) (boxed : ActionFuture T R) (P : T → Type 0)
    (J : boxed.Fut → T → Type 0) where
  resume-poison :
      (b : Bool) (f : PerformFuture tokio boxed) (m : RobustMutex tokio)
      → (resume tokio boxed b f m).2.poison ≡ m.poison
  unfolding resume
  resume-poison b (unresumed p action) m = ground arith
  resume-poison b (suspended p z fut) m = ground arith
  resume-poison b finished m = refl

  abandon-poison :
      (b : Bool) (f : PerformFuture tokio boxed) (m : RobustMutex tokio)
      → (abandon tokio boxed b f m).1.poison ≡ m.poison
  unfolding abandon drop_permit
  abandon-poison b (unresumed p action) m = refl
  abandon-poison b (suspended p z fut) m = refl
  abandon-poison b finished m = refl

  Move-Marks :
      {m m' : RobustMutex tokio} {p p' : Phase tokio boxed}
      → Move tokio boxed P J m p m' p'
      → Marks m.poison m'.poison
  unfolding drop_poisoner drop_async_poisoner drop_permit run_action abandon
  Move-Marks (acquire a) = untouched (Acquires-effect tokio boxed a).0
  Move-Marks (miss a) = untouched (Misses-Same tokio boxed a).0
  Move-Marks discard = untouched refl
  Move-Marks (perform action restores) = untouched refl
  Move-Marks (finish {z}) = marked z.poison_guard _ _ refl
  Move-Marks (start action starts) = untouched refl
  Move-Marks {m} (poll {f} b) = untouched (resume-poison b f m)
  Move-Marks {m} (cancel {f} b) = untouched (abandon-poison b f m)
  Move-Marks stay = untouched refl
  Move-Marks (leave {z}) = marked z.poison_guard _ _ refl
  Move-Marks gone = untouched refl
  Move-Marks release = untouched refl

  Step-Marks :
      {s u : System tokio boxed} → Step tokio boxed P J s u → Marks s.mutex.poison u.mutex.poison
  unfolding get_mut
  Step-Marks (pick i mv) = Move-Marks mv
  Step-Marks (write_mut t none_out h) = untouched refl

  pub Reach-has_bit :
      (polls : (fut : boxed.Fut) (t : T) → J fut t → Continues tokio boxed P J (boxed.poll fut t))
      {s u : System tokio boxed}
      → Reach tokio boxed P J s u
      → Inv tokio boxed P J s
      → (mask : ℕ) → (mask ≡ panic_poison) ⊎ (mask ≡ cancel_poison)
      → has_bit s.mutex.poison.failed mask ≡ true
      → has_bit u.mutex.poison.failed mask ≡ true
  Reach-has_bit polls here inv mask which h = h
  Reach-has_bit polls (next r st) inv mask which h =
      Marks-has_bit mask ((Reach-Inv tokio boxed P J polls r inv).fits 0).flag (Step-Marks st) which
        (Reach-has_bit polls r inv mask which h)
