-- ===== src/JoinMacro/Examples.antt =====
-- Polls of `join_then_try!` on three timers.
use cancel_safe_futures.Base.{
  false, ℕ, Result, Option, none, ◌++◌, suc, true, ◌<◌, ◌≡◌, refl, List, [], ◌∷◌, ok, err, some,
  returned, ready, arith,
}
use cancel_safe_futures.Future.MaybeDone.{Stage, future, done, gone}
use cancel_safe_futures.Future.Samples.{
  Timer, Slot, slots, fragile_slots, after_polls, output_of, output_of_settles, left_of,
  left_of-Finishes, AnyPoll, poll_timer-Arms,
}
use cancel_safe_futures.Future.Round.{poll_all}
use cancel_safe_futures.JoinMacro.Defs.{JoinThenTry, poll}
use cancel_safe_futures.JoinMacro.Polling.{Joined, poll-Joined}
use cancel_safe_futures.Future.Waking.{IfAnyPending}
use cancel_safe_futures.JoinMacro.Waking.{BranchesArmed, poll-BranchesArmed}
use cancel_safe_futures.Future.Woken.{block_on_woken}
use cancel_safe_futures.Future.Samples.{has_polls, poll_timer-Woken}
use cancel_safe_futures.Future.Noted.{noting}
use cancel_safe_futures.JoinMacro.Finished.{all_finished}
use cancel_safe_futures.JoinMacro.Woken.{block_on_woken-expand}
use cancel_safe_futures.JoinMacro.Macro.{expand, poll_expansion}
use cancel_safe_futures.JoinMacro.Fair.{FirstIfAny, after_pending, after_pending-turn}

-- The third branch is done, the others fail at their next poll; the second is polled first.
abbrev branches : List Slot
branches = future (after_polls 0 (err 9)) ∷ future (after_polls 0 (err 7)) ∷ done (ok 1) ∷ []

abbrev join : JoinThenTry slots
join = record { futures = branches; skip_next_time = 1 }

-- The error of the first branch is returned, and the other outputs stay in their cells.
first_error_wins :
    poll slots 2 join 0
    ≡ some (
      returned (ready (err 9)),
      record { futures = gone ∷ done (err 7) ∷ done (ok 1) ∷ []; skip_next_time = 2 },
      2,
    )
unfolding poll
first_error_wins = refl

-- The second branch panics, so the first, which is last in this poll, is not polled.
abbrev waiting : List (Stage (Option Timer) (Result ℕ ℕ))
waiting = future (some (after_polls 0 (err 9))) ∷ []

poll-Joined_example :
    Joined fragile_slots true false (waiting ++ future none ∷ done (ok 1) ∷ []) 1 2 (
      poll fragile_slots 2
        (record { futures = waiting ++ future none ∷ done (ok 1) ∷ []; skip_next_time = 1 })
        0)
unfolding poll_all
poll-Joined_example = poll-Joined fragile_slots 0 waiting (future none) (done (ok 1) ∷ []) 0

abbrev early : Timer
early = after_polls 0 (err 9)

-- The second fails first, the first branch's error is returned.
abbrev late : Timer
late = after_polls 2 (err 7)

block_on_woken-expand_example :
    block_on_woken has_polls
      (noting (all_finished slots) (poll_expansion slots))
      (λ w. 0)
      3
      (expand slots (late ∷ early ∷ []))
      0
    ≡ some (returned (err 7, true))
block_on_woken-expand_example =
    block_on_woken-expand slots has_polls poll_timer-Woken output_of output_of_settles left_of
      left_of-Finishes (λ w. 0) (late ∷ early ∷ []) 3 0 (omega arith)
      (omega arith, (omega arith, tt))

-- The last branch is polled first; it goes on running, and so does the first.
poll-BranchesArmed_example : IfAnyPending (BranchesArmed slots AnyPoll poll_timer-Arms) (
    poll slots 2
      (record { futures = future late ∷ done (ok 1) ∷ future late ∷ []; skip_next_time = 2 })
      0)
poll-BranchesArmed_example =
    poll-BranchesArmed slots AnyPoll poll_timer-Arms 0 (future late ∷ done (ok 1) ∷ [])
      (future late) [] 0

-- All three branches are late; the third is first at the next poll, and the second after two polls.
abbrev slow : JoinThenTry slots
slow = record { futures = future late ∷ future late ∷ future late ∷ []; skip_next_time = 2 }

after_pending-turn_example :
    (2 < 3) × FirstIfAny slots 3 1 (after_pending slots (λ w. suc w) 2 slow 0)
after_pending-turn_example =
    after_pending-turn slots (λ w. suc w) slow 0 1 (omega arith) (omega arith)
