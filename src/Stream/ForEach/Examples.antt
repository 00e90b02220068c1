-- ===== src/Stream/ForEach/Examples.antt =====
-- Runs of `ForEachConcurrentThenTry` on a scripted stream.
use cancel_safe_futures.Base.{
  returned, ℕ, ◌≡◌, refl, [], ◌∷◌, Option, none, some, ok, err, ready, arith,
}
use cancel_safe_futures.Stream.Samples.{
  Script, scripted, scripted-IsFinite, queue, note, note-Logged,
}
use cancel_safe_futures.Stream.ForEach.Defs.{ForEachConcurrentThenTry, poll}
use cancel_safe_futures.Stream.ForEach.Loop.{Answers, poll-Answers, Bounded, poll-Within}
use cancel_safe_futures.Fmt.Samples.{words}
use cancel_safe_futures.Stream.ForEach.Debug.{debug_for_each}

abbrev fresh : Script → Option ℕ → ForEachConcurrentThenTry scripted queue note
fresh script limit = record {
  stream = some script;
  f = [];
  futures = [];
  limit = limit;
  first_error = none;
}

-- The second element's future fails with 7; the third is handed to the closure all the same.
abbrev three : ForEachConcurrentThenTry scripted queue note
three = fresh (some (ok 0) ∷ some (ok 7) ∷ some (ok 3) ∷ []) (some 1)

runs_on :
    poll scripted queue note 20 three tt
    ≡ some (returned (ready (err 7)), record three { stream = none; f = 0 ∷ 7 ∷ 3 ∷ [] }, tt)
unfolding poll
runs_on = refl

poll-Answers_example :
    Answers scripted queue note scripted-IsFinite note-Logged three
      (poll scripted queue note 20 three tt)
poll-Answers_example =
    poll-Answers scripted queue note scripted-IsFinite note-Logged 20 three tt (omega arith)

poll-Within_example :
    Bounded scripted queue note scripted-IsFinite note-Logged (poll scripted queue note 3 three tt)
poll-Within_example =
    poll-Within scripted queue note scripted-IsFinite note-Logged 3 three tt (omega arith)

for_each_words :
    debug_for_each words scripted queue note
      (λ x. "x" ∷ [])
      (λ q. "q" ∷ [])
      (λ l. "l" ∷ [])
      (λ e. "e" ∷ [])
      three
    ≡ "ForEachConcurrentThenTry" ∷ "stream" ∷ "x" ∷ "futures" ∷ "q" ∷ "limit" ∷ "l" ∷ "first_error"
      ∷ "e" ∷ []
unfolding debug_for_each
for_each_words = refl
