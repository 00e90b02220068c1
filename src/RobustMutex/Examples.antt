-- ===== src/RobustMutex/Examples.antt =====
-- The theorems at runs of the mutex cell and the actions of the samples.
use cancel_safe_futures.Base.{
  ℕ, List, [], ◌∷◌, ◌≡◌, ◌≤◌, inl, refl, Bool, true, false, ok, returned, arith,
}
use cancel_safe_futures.Fmt.Samples.{words}
use cancel_safe_futures.Poison.Error.{map_result, has_bit, panic_poison}
use cancel_safe_futures.Poison.Debug.{debug_flag}
use cancel_safe_futures.Poison.Flag.{borrow, done}
use cancel_safe_futures.RobustMutex.Mutex.{
  RobustMutex, ActionPermit, new, default, from, poll_lock, is_poisoned, is_panic_poisoned,
  is_cancel_poisoned, debug, debug_mutex, drop_permit, try_lock,
}
use cancel_safe_futures.RobustMutex.Permit.{
  run_action, drop_poisoner, new_poisoner, perform as run_perform,
}
use cancel_safe_futures.RobustMutex.Perform.{
  PerformFuture, unresumed, suspended, poll_perform, drop_perform, armed,
}
use cancel_safe_futures.RobustMutex.Samples.{cell, detour, good, bad}
use cancel_safe_futures.RobustMutex.System.{
  System, Phase, holding, finishing, releasing, update, idle, pick, Reach, here, next, init,
  acquire, by_lock, perform, finish, release, Continues,
}
use cancel_safe_futures.RobustMutex.Locking.{debug_lem, TryLocked, try_lock_lem}
use cancel_safe_futures.RobustMutex.Performing.{
  perform_lem, Polled as PerformPolled, poll_perform_lem, drop_perform_lem,
}
use cancel_safe_futures.RobustMutex.Safety.Unlocking.{Unlocked, Reach-Unlocked}
use cancel_safe_futures.RobustMutex.Safety.{active_unique, poll_lock-safe, poison-permanent}

abbrev Small : ℕ → Type 0
Small t = t ≤ 10

abbrev Resumes : Bool → ℕ → Type 0
Resumes false t = t ≤ 10
Resumes true t = Unit

detour_polls :
    (fut : Bool) (t : ℕ) → Resumes fut t → Continues cell detour Small Resumes (detour.poll fut t)
detour_polls false t h = tt
detour_polls true t h = omega arith

abbrev permit : ActionPermit cell
permit = record { guard = tt }

abbrev start : System cell detour
start = init cell detour 10

abbrev free_mutex : RobustMutex cell
free_mutex = record {
  poison = record { failed = 1 };
  inner = record { content = 10; taken = false };
}

abbrev locked_mutex : RobustMutex cell
locked_mutex = record {
  poison = record { failed = 0 };
  inner = record { content = 10; taken = true };
}

abbrev Run : System cell detour → System cell detour → Type 0
Run s u = Reach cell detour Small Resumes s u

-- Task 0 has gone through the phases of the list, the last first.
abbrev moved : List (Phase cell detour) → ℕ → Phase cell detour
moved [] = λ _. idle
moved (p ∷ ps) = update (moved ps) 0 p

abbrev state : ℕ → ℕ → Bool → List (Phase cell detour) → System cell detour
state flags t taken phases = record {
  mutex = record {
    poison = record { failed = flags };
    inner = record { content = t; taken = taken };
  };
  tasks = moved phases;
}

-- `lock` by task 0; then an action that returns, or one that panics half-way.
enter : Run start (state 0 10 true (holding permit ∷ []))
unfolding new poll_lock map_result borrow
enter = next here (pick 0 (acquire (by_lock tt (ok permit) refl)))

finish_well : Run start (
    state 0 3 false
      (idle ∷ releasing permit ∷ finishing permit (new_poisoner false) false ∷ holding permit ∷ []))
unfolding run_action drop_poisoner drop_permit new_poisoner done
finish_well =
    next (next (next enter (pick 0 (perform good (λ t h. omega arith)))) (pick 0 finish))
      (pick 0 release)

finish_badly : Run start (
    state 1 77 true
      (releasing permit ∷ finishing permit (new_poisoner false) true ∷ holding permit ∷ []))
unfolding run_action drop_poisoner new_poisoner done
finish_badly = next (next enter (pick 0 (perform bad (λ t h. tt)))) (pick 0 finish)

go_on :
    Run
      (state 1 77 true
        (releasing permit ∷ finishing permit (new_poisoner false) true ∷ holding permit ∷ []))
      (state 1 77 false (
        idle ∷ releasing permit ∷ finishing permit (new_poisoner false) true ∷ holding permit ∷ []))
unfolding drop_permit
go_on = next here (pick 0 release)

active_unique_example : ◌≡◌ {A = ℕ} 0 0
active_unique_example =
    active_unique cell detour Small Resumes detour_polls 10 (omega arith) enter 0 0 refl refl

poll_lock-safe_example : 3 ≤ 10
unfolding poll_lock map_result borrow
poll_lock-safe_example =
    poll_lock-safe cell detour Small Resumes detour_polls 10 (omega arith) finish_well tt permit
      refl

poison-permanent_example : has_bit 1 panic_poison ≡ true
poison-permanent_example =
    poison-permanent cell detour Small Resumes detour_polls 10 panic_poison (omega arith)
      finish_badly go_on (inl refl) refl

-- After the panic, before the guard is dropped.
Reach-Unlocked_example : Unlocked cell detour Small Resumes (
    state 1 77 true
      (releasing permit ∷ finishing permit (new_poisoner false) true ∷ holding permit ∷ []))
Reach-Unlocked_example = (Reach-Unlocked cell detour Small Resumes 10 finish_badly).1

-- The statements of the theorems on single calls, at these mutexes.
debug_lem_example : cell.held (debug cell free_mutex).1.inner ≡ false
debug_lem_example = (debug_lem cell free_mutex).1

try_lock_lem_example : TryLocked cell free_mutex (try_lock cell free_mutex)
try_lock_lem_example = try_lock_lem cell free_mutex (omega arith)

-- A mutex that is free but poisoned prints as locked.
poisoned_words :
    (debug_mutex cell words (λ t. "data" ∷ []) free_mutex).0
    ≡ "RobustMutex" ∷ "data" ∷ "<locked>" ∷ "poisoned" ∷ "(poisoned by panic)" ∷ []
unfolding debug_mutex map_result borrow debug_flag
poisoned_words = refl

perform_lem_example :
    is_panic_poisoned cell (run_perform cell false permit bad locked_mutex).1 ≡ true
unfolding is_panic_poisoned
perform_lem_example = (perform_lem cell false permit bad locked_mutex (omega arith)).3

-- The future of an action that waits, before its first poll and at its await point.
abbrev first : PerformFuture cell detour
first = unresumed permit (λ t. (returned false, t))

abbrev waiting : PerformFuture cell detour
waiting = suspended permit (armed false) true

poll_perform_lem_example :
    PerformPolled cell detour false first locked_mutex
      (poll_perform cell detour false first locked_mutex)
poll_perform_lem_example = poll_perform_lem cell detour false first locked_mutex (omega arith) tt

drop_perform_lem_example :
    is_cancel_poisoned cell (drop_perform cell detour false waiting locked_mutex) ≡ true
unfolding is_cancel_poisoned
drop_perform_lem_example =
    (drop_perform_lem cell detour false waiting locked_mutex (omega arith) refl).0.2

-- A mutex that is made from its data is clean.
starts_clean :
    (is_poisoned cell (from cell 5) ≡ false) × (is_poisoned cell (default cell 0) ≡ false)
unfolding is_poisoned from default
starts_clean = (refl, refl)
