-- ===== src/Stream/ForEach/Hangs.antt =====
-- src/stream/for_each_concurrent_then_try.rs: how a task ends that is polled again only when it was
-- woken.
use cancel_safe_futures.Base.{
  ℕ, zero, suc, ◌*◌, ◌≡◌, ◌∙◌, refl, sym, ap, inl, inr, Bool-cases, false, List, [], ◌++◌, length,
  Option, none, some, Result, pending, ready, Outcome, returned, unwound, arith,
}
use cancel_safe_futures.Stream.Defs.{TryStream, IsFinite, oks}
use cancel_safe_futures.Stream.Ext.{for_each_concurrent_then_try}
use cancel_safe_futures.Stream.ForEach.Defs.{
  FuturesUnordered, ForEachConcurrentThenTry, Answer, new, poll,
}
use cancel_safe_futures.Stream.ForEach.Laws.{Logged, elements}
use cancel_safe_futures.Stream.ForEach.Loop.{Answers, poll-Answers}
use cancel_safe_futures.Stream.ForEach.Limit.{non_zero-IsLimit}
use cancel_safe_futures.Stream.ForEach.Rule.{Gives}
use cancel_safe_futures.Stream.ForEach.First.{ErrorLog, Found, Returns, head?, poll-Returns}
use cancel_safe_futures.Stream.ForEach.Delay.{Delays, delays, Before, After, poll-Delay}
use cancel_safe_futures.Stream.ForEach.Wake.{Wakes}
use cancel_safe_futures.Stream.ForEach.Stalls.{
  HasLimit, Stalled, WokenOrStalled, poll-WokenOrStalled,
}
use cancel_safe_futures.Stream.ForEach.Run.{Completed, Open, ready-Completed, pending-Open}
use cancel_safe_futures.Stream.ForEach.Woken.{if_woken, run_woken}

module _ {W A E Fut Fn : Type 0} (st : TryStream W A E)
    (set : FuturesUnordered W Fut (Result (Unit {0}) E)) (call : Fn → A → Outcome Fut × Fn)
    (fin : IsFinite st) (calls : Logged call) (wakes : Wakes st set call fin calls)
    (log : ErrorLog st set call) where
  -- The task has completed; or it is pending and nothing will wake it, with an error that was
  -- found, a stream that has not ended, and no future that could run. No element is lost.
  abbrev pub CompletedOrHung : List A → Option (Answer st set call) → Type 0
  CompletedOrHung es none = ⊥
  CompletedOrHung es (some (unwound, s, w)) = ⊥
  CompletedOrHung es (some (returned pending, s, w)) =
      (wakes.will_wake w ≡ false)
      × Stalled st set call fin calls wakes s
      × (s.first_error ≡ head? (log.errors w))
      × (elements st set call fin calls s ≡ es)
  CompletedOrHung es (some (returned (ready r), s, w)) =
      Completed st set call calls log es (some (returned (ready r), s, w))

  hangs :
      (s : ForEachConcurrentThenTry st set call) (w : W)
      → wakes.will_wake w ≡ false
      → WokenOrStalled st set call fin calls wakes (returned pending) s w
      → Stalled st set call fin calls wakes s
  hangs s w off (inl on) = cc
  hangs s w off (inr stalled) = stalled

  module _ (d : Delays st set call) where
    if_woken-CompletedOrHung :
        (es : List A) (m n : ℕ) (between : W → W)
        (again : ForEachConcurrentThenTry st set call → W → Option (Answer st set call))
        → ((w : W) → log.errors (between w) ≡ log.errors w)
        → ((s : ForEachConcurrentThenTry st set call) (w : W)
            → Open st set call fin calls log d es m n s w
            → CompletedOrHung es (again s w))
        → (s : ForEachConcurrentThenTry st set call) (w : W) (a : Option (Answer st set call))
        → Open st set call fin calls log d es m (suc n) s w
        → Answers st set call fin calls s a
        → Gives st set call (Found st set call log) (Returns st set call log) a
        → Gives st set call
            (Before st set call d (delays st set call d s))
            (After st set call d (delays st set call d s))
            a
        → Gives st set call
            (HasLimit st set call fin calls wakes)
            (WokenOrStalled st set call fin calls wakes)
            a
        → CompletedOrHung es
            (if_woken st set call wakes.will_wake (λ s' w'. again s' (between w')) a)
    unfolding if_woken
    if_woken-CompletedOrHung es m n between again quiet ih s w none o h f g k = absurd h
    if_woken-CompletedOrHung es m n between again quiet ih s w (some (unwound, s', w')) o h f g k =
        absurd g
    if_woken-CompletedOrHung es m n between again quiet ih s w (some (returned pending, s', w')) o h
          f g k =
        elim (Bool-cases (wakes.will_wake w')) [
          | inl on ↦ rw on (
              ih s' (between w')
                (pending-Open st set call fin calls log d es m n between quiet s s' w w' o h f g))
          | inr off ↦ let stalled = hangs s' w' off k in rw off (off, stalled, f, h.same ∙ o.same)
        ]
    if_woken-CompletedOrHung es m n between again quiet ih s w (some (returned (ready r), s', w')) o
          h f g k =
        ready-Completed st set call fin calls log d es s s' w' r h f o.same

    run_woken-Open :
        (es : List A) (m n : ℕ) (between : W → W)
        → ((w : W) → log.errors (between w) ≡ log.errors w)
        → (s : ForEachConcurrentThenTry st set call) (w : W)
        → Open st set call fin calls log d es m n s w
        → CompletedOrHung es (run_woken st set call wakes.will_wake between m n s w)
    unfolding run_woken
    run_woken-Open es m zero between quiet s w o = absurd (omega (arith, o.few))
    run_woken-Open es m (suc n) between quiet s w o =
        if_woken-CompletedOrHung es m n between (run_woken st set call wakes.will_wake between m n)
          quiet (run_woken-Open es m n between quiet) s w (poll st set call m s w) o
          (poll-Answers st set call fin calls m s w o.fuel)
          (poll-Returns st set call log fin calls m s w o.fuel o.found)
          (poll-Delay st set call d (delays st set call d s) fin calls m s w o.fuel
            (o.limit, omega arith))
          (poll-WokenOrStalled st set call fin calls wakes m s w o.limit o.fuel)

    -- Under an executor that polls a task again only when it was woken,
    -- `for_each_concurrent_then_try` on any stream that yields finitely many items completes or
    -- hangs, when neither the stream nor the closure nor a future panics. If it completes, the
    -- closure has got every element, in order, no future is left, and the result is the first error
    -- that occurred or a success. If it hangs, nothing will wake the task, an error has occurred
    -- and the first is recorded, the stream has not ended, no future is left to run, and the
    -- elements that the closure has not got are still to come.
    pub run_woken-CompletedOrHung :
        {L : Type 0} (into : L → Option ℕ) (between : W → W) (x : st.Stream) (limit : L) (f : Fn)
        (w : W)
        → ((v : W) → log.errors (between v) ≡ log.errors v)
        → log.errors w ≡ []
        → CompletedOrHung (calls.calls f ++ oks (fin.rest x)) (
            run_woken st set call wakes.will_wake between
              (suc (length (fin.rest x) * 2))
              (suc (d.delay x))
              (for_each_concurrent_then_try st set call into x limit f)
              w)
    unfolding for_each_concurrent_then_try new
    run_woken-CompletedOrHung into between x limit f w quiet clean =
        run_woken-Open (calls.calls f ++ oks (fin.rest x)) (suc (length (fin.rest x) * 2))
          (suc (d.delay x)) between quiet (for_each_concurrent_then_try st set call into x limit f)
          w
          (record {
            limit = non_zero-IsLimit (into limit);
            few = omega (arith, d.lag-empty);
            fuel = omega (arith, set.len-empty);
            found = ap head? (sym clean);
            same = refl;
          })
