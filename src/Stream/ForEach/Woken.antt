-- ===== src/Stream/ForEach/Woken.antt =====
-- src/stream/for_each_concurrent_then_try.rs: the adapter under an executor that polls a task only
-- when it was woken.
use mathlib.Core.Path.{subst}
use cancel_safe_futures.Base.{
  ℕ, zero, suc, ◌*◌, ◌<◌, ◌≡◌, ◌∙◌, refl, sym, Bool, false, if◌then◌else◌, [], ◌++◌, length, Option,
  none, some, Result, err, pending, ready, Outcome, returned, unwound, arith,
}
use cancel_safe_futures.Stream.Defs.{TryStream, IsFinite, oks}
use cancel_safe_futures.Stream.Ext.{for_each_concurrent_then_try}
use cancel_safe_futures.Stream.ForEach.Defs.{
  FuturesUnordered, ForEachConcurrentThenTry, Answer, non_zero, new, poll,
}
use cancel_safe_futures.Stream.ForEach.Laws.{Logged, work}
use cancel_safe_futures.Stream.ForEach.Limit.{non_zero-IsLimit, empty-has_room}
use cancel_safe_futures.Stream.ForEach.Loop.{Answers, poll-Answers}
use cancel_safe_futures.Stream.ForEach.Rule.{Gives}
use cancel_safe_futures.Stream.ForEach.Wake.{Wakes, IsClean, Ready, WakesUp, poll-WakesUp}
use cancel_safe_futures.Stream.ForEach.First.{ErrorLog}
use cancel_safe_futures.Stream.ForEach.Delay.{Delays}
use cancel_safe_futures.Stream.ForEach.Stall.{poll-stall}
use cancel_safe_futures.Stream.ForEach.Run.{
  go_round, run, Completed, run-for_each_concurrent_then_try,
}

module _ {W A E Fut Fn : Type 0} (st : TryStream W A E)
    (set : FuturesUnordered W Fut (Result (Unit {0}) E)) (call : Fn → A → Outcome Fut × Fn) where
  -- A task that is pending and will not be woken stays pending for ever.
  unfoldable pub if_woken :
      (W → Bool)
      → (ForEachConcurrentThenTry st set call → W → Option (Answer st set call))
      → Option (Answer st set call)
      → Option (Answer st set call)
  if_woken will_wake again none = none
  if_woken will_wake again (some (returned pending, s, w)) =
      if will_wake w then again s w else some (returned pending, s, w)
  if_woken will_wake again (some (returned (ready r), s, w)) = some (returned (ready r), s, w)
  if_woken will_wake again (some (unwound, s, w)) = some (unwound, s, w)

  -- At most `n` polls with fuel `m`; between two polls the world may change.
  unfoldable pub run_woken :
      (W → Bool)
      → (W → W)
      → ℕ
      → ℕ
      → ForEachConcurrentThenTry st set call
      → W
      → Option (Answer st set call)
  unfolding if_woken
  run_woken will_wake between m zero s w = none
  run_woken will_wake between m (suc n) s w =
      if_woken will_wake (λ s' w'. run_woken will_wake between m n s' (between w'))
        (poll st set call m s w)

  module _ (fin : IsFinite st) (log : Logged call) (wakes : Wakes st set call fin log) where
    if_woken-go_round :
        (m : ℕ) (between : W → W)
        (again again' : ForEachConcurrentThenTry st set call → W → Option (Answer st set call))
        → ((s : ForEachConcurrentThenTry st set call) (w : W)
            → Ready st set call fin log wakes s w
            → work st set call fin log s < m
            → again s w ≡ again' s w)
        → (s : ForEachConcurrentThenTry st set call) (a : Option (Answer st set call))
        → work st set call fin log s < m
        → Answers st set call fin log s a
        → Gives st set call (Ready st set call fin log wakes) (WakesUp st set call fin log wakes) a
        → if_woken wakes.will_wake (λ s' w'. again s' (between w')) a
          ≡ go_round st set call (λ s' w'. again' s' (between w')) a
    unfolding if_woken go_round
    if_woken-go_round m between again again' ih s none few h g = absurd h
    if_woken-go_round m between again again' ih s (some (unwound, s', w)) few h g = refl
    if_woken-go_round m between again again' ih s (some (returned (ready r), s', w)) few h g = refl
    if_woken-go_round m between again again' ih s (some (returned pending, s', w)) few h g =
        let less = h.less in rw (g.0) (ih s' (between w) g.1 (omega arith))

    -- On a stream that yields no error no poll is missing.
    run_woken-run :
        (between : W → W) (m n : ℕ) (s : ForEachConcurrentThenTry st set call) (w : W)
        → Ready st set call fin log wakes s w
        → work st set call fin log s < m
        → run_woken wakes.will_wake between m n s w ≡ run st set call between m n s w
    unfolding run_woken run
    run_woken-run between m zero s w h few = refl
    run_woken-run between m (suc n) s w h few =
        if_woken-go_round m between (run_woken wakes.will_wake between m n)
          (run st set call between m n) (run_woken-run between m n) s (poll st set call m s w) few
          (poll-Answers st set call fin log m s w few)
          (poll-WakesUp st set call fin log wakes m s w h.0 h.1 few)

    -- `for_each_concurrent_then_try` on a stream that yields finitely many elements and no error
    -- completes under an executor that polls the task again only when it was woken, when neither
    -- the stream nor the closure nor a future panics. The numbers of polls and of items bound the
    -- run as they do under an executor that always polls again. The closure has got every element
    -- of the stream, in order, no future is left, and the result is the first error of a future, or
    -- a success.
    pub run_woken-for_each_concurrent_then_try :
        (errs : ErrorLog st set call) (d : Delays st set call) {L : Type 0} (into : L → Option ℕ)
        (between : W → W) (x : st.Stream) (limit : L) (f : Fn) (w : W)
        → IsClean (fin.rest x)
        → ((v : W) → errs.errors (between v) ≡ errs.errors v)
        → errs.errors w ≡ []
        → Completed st set call log errs (log.calls f ++ oks (fin.rest x)) (
            run_woken wakes.will_wake between
              (suc (length (fin.rest x) * 2))
              (suc (d.delay x))
              (for_each_concurrent_then_try st set call into x limit f)
              w)
    unfolding for_each_concurrent_then_try new
    run_woken-for_each_concurrent_then_try errs d into between x limit f w clean quiet none_yet =
        subst (λ a. Completed st set call log errs (log.calls f ++ oks (fin.rest x)) a)
          (sym (
            run_woken-run between (suc (length (fin.rest x) * 2)) (suc (d.delay x))
              (for_each_concurrent_then_try st set call into x limit f) w
              (non_zero-IsLimit (into limit), clean) (omega (arith, set.len-empty))))
          (run-for_each_concurrent_then_try st set call fin log errs d into between x limit f w
            quiet none_yet)

  -- Take a stream whose first poll yields an error, and let neither that poll nor the poll of an
  -- empty set of futures, which are both ready, wake the task. Then under an executor that polls
  -- only a task that was woken, `for_each_concurrent_then_try` hangs: with every fuel and every
  -- number of polls it is left pending after one poll, with the error recorded and not returned, no
  -- wake-up arranged, and the rest of the stream not polled.
  pub run_woken-stall :
      (will_wake : W → Bool) (between : W → W) (m n : ℕ) {L : Type 0} (into : L → Option ℕ)
      (x x' : st.Stream) (limit : L) (f : Fn) (e : E) (q' : set.Queue) (w w1 w2 : W)
      → st.try_poll_next x w ≡ (returned (ready (some (err e))), x', w1)
      → set.poll_next set.empty w1 ≡ (returned (ready none), q', w2)
      → will_wake w ≡ false
      → will_wake w1 ≡ will_wake w
      → will_wake w2 ≡ will_wake w1
      → run_woken will_wake between
          (suc m)
          (suc n)
          (for_each_concurrent_then_try st set call into x limit f)
          w
        ≡ some (
          returned pending,
          record {
            stream = some x';
            f = f;
            futures = q';
            limit = non_zero (into limit);
            first_error = some e;
          },
          w2,
        )
  unfolding run_woken if_woken for_each_concurrent_then_try new
  run_woken-stall will_wake between m n into x x' limit f e q' w w1 w2 item empty off same1 same2 =
      let stalled =
        poll-stall st set call will_wake m (for_each_concurrent_then_try st set call into x limit f)
          x x' e q' w w1 w2
          (empty-has_room (non_zero (into limit)) (set.len set.empty)
            (non_zero-IsLimit (into limit)) set.len-empty)
          refl item empty same1 same2 in
      rw stalled.0 (rw (stalled.1 ∙ off) refl)
