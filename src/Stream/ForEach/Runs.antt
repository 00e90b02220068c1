-- ===== src/Stream/ForEach/Runs.antt =====
-- Runs of `for_each_concurrent_then_try` on the stream and the set of futures that are monitored.
use cancel_safe_futures.Base.{
  returned, ℕ, suc, ◌≡◌, refl, false, List, [], ◌∷◌, none, some, ok, err, pending, arith,
}
use cancel_safe_futures.Stream.Defs.{Pauses}
use cancel_safe_futures.Stream.Samples.{Script, note, note-Logged}
use cancel_safe_futures.Stream.ForEach.Monitored.{
  Seen, poll_script, watched, watched-IsFinite, poll_queue, set, errors_logged, wakes, asleep,
}
use cancel_safe_futures.Stream.Ext.{for_each_concurrent_then_try}
use cancel_safe_futures.Stream.ForEach.Delay.{Delays, Delayed}
use cancel_safe_futures.Stream.ForEach.Run.{run, Completed, run-for_each_concurrent_then_try}
use cancel_safe_futures.Stream.ForEach.Hangs.{CompletedOrHung, run_woken-CompletedOrHung}
use cancel_safe_futures.Stream.ForEach.Woken.{
  run_woken, run_woken-for_each_concurrent_then_try, run_woken-stall,
}

-- Each poll that is pending and each error of the stream delays the adapter; the futures do not.
abbrev setbacks : Script → ℕ
setbacks [] = 0
setbacks (none ∷ s) = suc (setbacks s)
setbacks (some (ok a) ∷ s) = setbacks s
setbacks (some (err e) ∷ s) = suc (setbacks s)

abbrev no_cost : ℕ → ℕ
no_cost a = 0

abbrev no_lag : List ℕ → ℕ
no_lag q = 0

script-Delayed : (s : Script) (w : Seen) → Delayed setbacks no_cost (setbacks s) (poll_script s w)
script-Delayed [] w = tt
script-Delayed (none ∷ s) w = omega arith
script-Delayed (some (ok a) ∷ s) w = omega arith
script-Delayed (some (err e) ∷ s) w = omega arith

queue-Pauses : (q : List ℕ) (w : Seen) → Pauses no_lag (no_lag q) (poll_queue q w)
queue-Pauses [] w = omega arith
queue-Pauses (f ∷ q) w = omega arith

abbrev delayed : Delays watched set note
delayed = record {
  delay = setbacks;
  cost = no_cost;
  lag = no_lag;
  stream_law = script-Delayed;
  set_law = queue-Pauses;
  call_law = λ f a q. omega arith;
  lag-empty = refl;
}

-- Between two polls the executor clears the mark.
abbrev clear : Seen → Seen
clear w = record w { woken = false }

-- One wait, and one error of the stream after that of a future.
abbrev bumpy : Script
bumpy = some (ok 0) ∷ none ∷ some (ok 7) ∷ some (err 5) ∷ some (ok 3) ∷ []

run-for_each_concurrent_then_try_example :
    Completed watched set note note-Logged errors_logged (0 ∷ 7 ∷ 3 ∷ []) (
      run watched set note clear 9 3
        (for_each_concurrent_then_try watched set note some bumpy 1 [])
        asleep)
run-for_each_concurrent_then_try_example =
    run-for_each_concurrent_then_try watched set note watched-IsFinite note-Logged errors_logged
      delayed some clear bumpy 1 [] asleep (λ v. refl) refl

-- One wait, and a future that fails.
abbrev halting : Script
halting = some (ok 0) ∷ none ∷ some (ok 7) ∷ some (ok 3) ∷ []

run_woken-for_each_concurrent_then_try_example :
    Completed watched set note note-Logged errors_logged (0 ∷ 7 ∷ 3 ∷ []) (
      run_woken watched set note
        (λ w. w.woken)
        clear
        7
        2
        (for_each_concurrent_then_try watched set note some halting 1 [])
        asleep)
run_woken-for_each_concurrent_then_try_example =
    run_woken-for_each_concurrent_then_try watched set note watched-IsFinite note-Logged wakes
      errors_logged delayed some clear halting 1 [] asleep tt (λ v. refl) refl

-- The stream fails before an element, and the task hangs.
run_woken-stall_example :
    run_woken watched set note
      (λ w. w.woken)
      clear
      20
      9
      (for_each_concurrent_then_try watched set note some (some (err 5) ∷ some (ok 3) ∷ []) 1 [])
      asleep
    ≡ some (
      returned pending,
      record {
        stream = some (some (ok 3) ∷ []);
        f = [];
        futures = [];
        limit = some 1;
        first_error = some 5;
      },
      record { woken = false; errors = 5 ∷ [] },
    )
run_woken-stall_example =
    run_woken-stall watched set note (λ w. w.woken) clear 19 8 some
      (some (err 5) ∷ some (ok 3) ∷ []) (some (ok 3) ∷ []) 1 [] 5 [] asleep
      (record { woken = false; errors = 5 ∷ [] }) (record { woken = false; errors = 5 ∷ [] }) refl
      refl refl refl refl

-- The error comes when no future runs, so the task hangs after the first element.
abbrev hanging : Script
hanging = some (ok 0) ∷ some (err 5) ∷ some (ok 3) ∷ []

run_woken-CompletedOrHung_example :
    CompletedOrHung watched set note watched-IsFinite note-Logged wakes errors_logged (0 ∷ 3 ∷ []) (
      run_woken watched set note
        (λ w. w.woken)
        clear
        7
        2
        (for_each_concurrent_then_try watched set note some hanging 1 [])
        asleep)
run_woken-CompletedOrHung_example =
    run_woken-CompletedOrHung watched set note watched-IsFinite note-Logged wakes errors_logged
      delayed some clear hanging 1 [] asleep (λ v. refl) refl
