-- ===== src/JoinAll/Examples.antt =====
-- Joins of timers, of both kinds.
use cancel_safe_futures.Base.{
  ℕ, Result, Option, none, true, ◌≡◌, false, returned, List, [], ◌∷◌, some, ok, err, arith,
}
use cancel_safe_futures.Future.MaybeDone.{Stage, future, done}
use cancel_safe_futures.Future.Round.{poll_all}
use cancel_safe_futures.Future.Samples.{
  Timer, slots, fragile_slots, after_polls, output_of, output_of_settles, left_of, left_of-Finishes,
  AnyPoll, poll_timer-Arms,
}
use cancel_safe_futures.JoinAll.Small.{poll_small}
use cancel_safe_futures.JoinAll.Polling.{Joined, poll_small-Joined}
use cancel_safe_futures.JoinAll.Kinds.{new_cells, small, join_all_then_try, from_iter, poll}
use cancel_safe_futures.Future.Woken.{block_on_woken}
use cancel_safe_futures.Future.Samples.{has_polls, poll_timer-Woken}
use cancel_safe_futures.JoinAll.Woken.{block_on_woken-join_all_then_try}
use cancel_safe_futures.JoinAll.Samples.{
  ordered, waiting, waits, serve_next-Pauses, AnyServed, serve_next-IfPending, serve_next-Woken,
}
use cancel_safe_futures.Future.Waking.{IfAnyPending}
use cancel_safe_futures.JoinAll.Waking.{Awake, poll-Awake}
use cancel_safe_futures.JoinAll.Outcomes.{Heads, poll-Heads}
use cancel_safe_futures.Future.Noted.{noting}
use cancel_safe_futures.JoinAll.Finished.{all_finished}
use cancel_safe_futures.Base.{refl}
use cancel_safe_futures.Fmt.Samples.{words}
use cancel_safe_futures.JoinAll.Debug.{debug_join}

-- The second fails late, the third early: the error of the second is returned.
abbrev timers : List Timer
timers = after_polls 0 (ok 1) ∷ after_polls 2 (err 7) ∷ after_polls 1 (err 9) ∷ []

-- The second panics: the third is not polled.
abbrev fragile : List (Stage (Option Timer) (Result ℕ ℕ))
fragile =
    future (some (after_polls 0 (ok 1))) ∷ future none ∷ future (some (after_polls 0 (ok 2))) ∷ []

poll_small-Joined_example :
    Joined fragile_slots true false
      (done (ok 1) ∷ future none ∷ future (some (after_polls 0 (ok 2))) ∷ [])
      2
      (poll_small fragile_slots fragile 0)
unfolding poll_all
poll_small-Joined_example = poll_small-Joined fragile_slots fragile 0

poll-Heads_example :
    Heads slots ordered output_of output_of_settles
      (small (waiting timers))
      (poll slots ordered 1 (small (waiting timers)) 0)
poll-Heads_example =
    poll-Heads slots ordered output_of output_of_settles 1 (small (waiting timers)) 0 tt
      (omega arith)

-- The big kind: the queue is pending until the last timer has run down.
-- The mark is cleared between two polls.
block_on_woken-join_all_then_try_example :
    block_on_woken has_polls
      (noting (all_finished slots ordered output_of) (poll slots ordered 4))
      (λ w. 0)
      4
      (join_all_then_try slots ordered false (some 31) timers)
      0
    ≡ some (returned (err 7, true))
block_on_woken-join_all_then_try_example =
    block_on_woken-join_all_then_try slots ordered has_polls poll_timer-Woken serve_next-Woken
      output_of output_of_settles left_of left_of-Finishes waits serve_next-Pauses (λ w. 0) false
      (some 31) timers 4 0 (omega arith) (omega arith, (omega arith, (omega arith, tt)))
      (omega arith)

-- The second and the third timer still run.
poll-Awake_example :
    IfAnyPending
      (Awake slots ordered AnyPoll poll_timer-Arms AnyServed serve_next-IfPending)
      (poll slots ordered 1 (small (waiting timers)) 0)
poll-Awake_example =
    poll-Awake slots ordered AnyPoll poll_timer-Arms AnyServed serve_next-IfPending 1
      (small (waiting timers)) 0

-- A small join prints its cells.
join_words :
    debug_join words slots ordered (λ cs. "cells" ∷ []) (λ s. "fut" ∷ []) (small (waiting timers))
    ≡ "JoinAllThenTry" ∷ "elems" ∷ "cells" ∷ []
unfolding debug_join
join_words = refl

-- Thirty futures at most make a small join.
collects_small :
    from_iter slots ordered false (some 30) timers ≡ small (new_cells slots ordered timers)
unfolding from_iter
collects_small = refl
