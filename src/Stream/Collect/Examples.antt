-- ===== src/Stream/Collect/Examples.antt =====
-- Runs of `CollectThenTry` on a scripted stream.
use cancel_safe_futures.Base.{
  false, ℕ, ◌≡◌, refl, List, [], ◌∷◌, ◌++◌, none, some, ok, err, ready, returned, arith,
}
use cancel_safe_futures.Stream.Samples.{
  Script, scripted, scripted-IsFinite, waits, flagged, flagged-IsFinite, flagged_pause,
  flagged-IfPending,
}
use cancel_safe_futures.Stream.Collect.Defs.{Collection, CollectThenTry, poll}
use cancel_safe_futures.Stream.Collect.Laws.{Collects, poll-Collects}
use cancel_safe_futures.Future.Woken.{block_on_woken}
use cancel_safe_futures.Stream.Ext.{collect_then_try}
use cancel_safe_futures.Stream.Collect.Woken.{block_on_woken-collect_then_try}

abbrev vec : Collection (List ℕ) ℕ
vec = record { default = []; extend = λ xs x. (returned tt, xs ++ x ∷ []) }

abbrev mixed : CollectThenTry scripted vec
mixed = record {
  stream = some (ok 1) ∷ some (err 5) ∷ some (ok 6) ∷ some (err 10) ∷ [];
  items = [];
  first_error = none;
}

-- The first error is returned, and the stream has run to its end.
first_of_two :
    poll scripted vec 5 mixed tt
    ≡ some (returned (ready (err 5)), record mixed { stream = []; items = 1 ∷ 6 ∷ [] }, tt)
unfolding poll
first_of_two = refl

poll-Collects_example : Collects scripted vec scripted-IsFinite mixed (poll scripted vec 5 mixed tt)
poll-Collects_example = poll-Collects scripted vec scripted-IsFinite 5 mixed tt (omega arith)

-- The stream is pending twice.
abbrev slow : Script
slow = none ∷ some (ok 1) ∷ none ∷ some (ok 6) ∷ []

block_on_woken-collect_then_try_example :
    block_on_woken
      (λ w. w)
      (poll flagged vec 3)
      (λ w. false)
      3
      (collect_then_try flagged vec slow)
      false
    ≡ some (returned (ok (1 ∷ 6 ∷ [])))
block_on_woken-collect_then_try_example =
    block_on_woken-collect_then_try flagged vec (λ w. w) flagged-IfPending flagged-IsFinite waits
      flagged_pause (λ xs x. tt) (λ w. false) slow 2 false (omega arith)
