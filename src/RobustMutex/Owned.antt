-- ===== src/RobustMutex/Owned.antt =====
-- A client that owns a mutex: an action that panics, one that is cancelled, a value that is
-- replaced, and one that returns.
use cancel_safe_futures.Base.{
  arith, ◌≡◌, List, [], ◌∷◌, Bool, true, false, none, some, returned, unwound, refl,
}
use cancel_safe_futures.RobustMutex.Mutex.{new, into_inner as unwrap_mutex}
use cancel_safe_futures.RobustMutex.Client.{Op, run, run_async, overwrite, ran, written, spec}
use cancel_safe_futures.RobustMutex.Session.{calls, replay, fresh, Yields, Prompt, calls-into_inner}
use cancel_safe_futures.RobustMutex.Samples.{cell, detour, good, bad}

abbrev panics : Bool × Op detour
panics = (false, run bad)

abbrev cancelled : Bool × Op detour
cancelled = (false, run_async (λ t. (returned false, t)) 1)

abbrev session : List (Bool × Op detour)
session = panics ∷ cancelled ∷ (false, overwrite 8) ∷ (false, run good) ∷ []

cell-Prompt : Prompt cell detour
cell-Prompt c free = grind (arith, free)

answers :
    (replay cell detour session (fresh cell detour 10)).0
    ≡ ran none (some unwound)
      ∷ ran (some (true, false)) none
      ∷ written
      ∷ ran (some (true, true)) (some (returned 8))
      ∷ []
unfolding replay spec
answers = refl

calls-into_inner_example :
    Yields cell detour
      (replay cell detour session (fresh cell detour 10)).1
      (unwrap_mutex cell (calls cell detour session (new cell 10)).1)
calls-into_inner_example = (calls-into_inner cell detour cell-Prompt 10 session).2
