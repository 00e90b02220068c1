-- ===== src/Poison/Examples.antt =====
-- The poison flag after some reports, and texts of it and of its errors.
use cancel_safe_futures.Base.{◌≡◌, refl, List, [], ◌∷◌, true, false}
use cancel_safe_futures.Poison.Flag.{new, Flag, Guard, borrow}
use cancel_safe_futures.Poison.Debug.{debug_flags}
use cancel_safe_futures.Poison.Reports.{Report, done_all, Reads, borrow-done_all}
use cancel_safe_futures.Base.{none, some}
use cancel_safe_futures.Fmt.Samples.{words}
use cancel_safe_futures.Poison.Error.{TryLockError, poisoned, would_block}
use cancel_safe_futures.Poison.Debug.{cause, debug_try_lock_error}

abbrev panicked : Flag
panicked = record { failed = 1 }

abbrev calm : Guard
calm = record { panicking = false }

both_text : debug_flags 3 ≡ "(poisoned by panic, async cancellation)"
unfolding debug_flags
both_text = refl

-- A panic before the guard was made does not count; then a cancellation is reported.
abbrev late_cancel : List Report
late_cancel =
    record { guard = record { panicking = true }; panicking = true; cancel = false }
    ∷ record { guard = calm; panicking = false; cancel = true }
    ∷ []

borrow-done_all_example : Reads false true (borrow (done_all new late_cancel))
borrow-done_all_example = borrow-done_all late_cancel

abbrev by_panic : TryLockError (Unit {0})
by_panic = poisoned (record { guard = tt; flags = 1 })

-- The error and its cause; the guard is not printed.
error_words :
    debug_try_lock_error words by_panic
    ≡ "Poisoned" ∷ "PoisonError" ∷ "flags" ∷ "(poisoned by panic)" ∷ ".." ∷ []
unfolding debug_try_lock_error
error_words = refl

causes :
    (cause by_panic ≡ some (record { guard = tt; flags = 1 }))
    × (cause {T = Unit {0}} would_block ≡ none)
unfolding cause
causes = (refl, refl)
