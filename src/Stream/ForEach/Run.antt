-- ===== src/Stream/ForEach/Run.antt =====
-- src/stream/for_each_concurrent_then_try.rs: the adapter polled from its first poll to its last.
use cancel_safe_futures.Base.{
  Outcome, returned, unwound, ℕ, zero, suc, ◌*◌, ◌<◌, ◌≡◌, ◌∙◌, refl, sym, ap, List, [], ◌++◌,
  append-nil, length, Option, none, some, Result, pending, ready, arith,
}
use cancel_safe_futures.Stream.Defs.{TryStream, IsFinite, oks}
use cancel_safe_futures.Stream.Ext.{for_each_concurrent_then_try}
use cancel_safe_futures.Stream.ForEach.Defs.{
  FuturesUnordered, ForEachConcurrentThenTry, Answer, new, poll, verdict,
}
use cancel_safe_futures.Stream.ForEach.Laws.{Logged, remaining, work, elements}
use cancel_safe_futures.Stream.ForEach.Loop.{Answers, poll-Answers}
use cancel_safe_futures.Stream.ForEach.Limit.{IsLimit, non_zero-IsLimit}
use cancel_safe_futures.Stream.ForEach.Rule.{Gives}
use cancel_safe_futures.Stream.ForEach.First.{ErrorLog, Found, Returns, head?, poll-Returns}
use cancel_safe_futures.Stream.ForEach.Delay.{Delays, delays, Before, After, poll-Delay}

module _ {W A E Fut Fn : Type 0} (st : TryStream W A E)
    (set : FuturesUnordered W Fut (Result (Unit {0}) E)) (call : Fn → A → Outcome Fut × Fn) where
  unfoldable pub go_round :
      (ForEachConcurrentThenTry st set call → W → Option (Answer st set call))
      → Option (Answer st set call)
      → Option (Answer st set call)
  go_round again none = none
  go_round again (some (returned pending, s, w)) = again s w
  go_round again (some (returned (ready r), s, w)) = some (returned (ready r), s, w)
  go_round again (some (unwound, s, w)) = some (unwound, s, w)

  -- At most `n` polls with fuel `m`, woken or not; between two polls the world may change.
  unfoldable pub run :
      (W → W) → ℕ → ℕ → ForEachConcurrentThenTry st set call → W → Option (Answer st set call)
  unfolding go_round
  run between m zero s w = none
  run between m (suc n) s w =
      go_round (λ s' w'. run between m n s' (between w')) (poll st set call m s w)

  module _ (calls : Logged call) (log : ErrorLog st set call) where
    -- Everything has ended, and every element has been handed to the closure.
    abbrev pub Completed : List A → Option (Answer st set call) → Type 0
    Completed es none = ⊥
    Completed es (some (unwound, s, w)) = ⊥
    Completed es (some (returned pending, s, w)) = ⊥
    Completed es (some (returned (ready r), s, w)) =
        (r ≡ verdict st set call (head? (log.errors w)))
        × (calls.calls s.f ≡ es)
        × (s.stream ≡ none)
        × (set.len s.futures ≡ 0)

  module _ (fin : IsFinite st) (calls : Logged call) (log : ErrorLog st set call)
      (d : Delays st set call) where
    -- Before a poll with fuel `m`, when at most `n` polls are left.
    pub record Open (es : List A) (m n : ℕ) (s : ForEachConcurrentThenTry st set call) (w : W)
        : Type 0 where
      pub limit : IsLimit s.limit
      pub few : delays st set call d s < n
      pub fuel : work st set call fin calls s < m
      pub found : Found st set call log s w
      pub same : elements st set call fin calls s ≡ es

    -- A poll that is ready completes the run.
    pub ready-Completed :
        (es : List A) (s s' : ForEachConcurrentThenTry st set call) (w' : W)
        (r : Result (Unit {0}) E)
        → Answers st set call fin calls s (some (returned (ready r), s', w'))
        → r ≡ verdict st set call (head? (log.errors w'))
        → elements st set call fin calls s ≡ es
        → Completed calls log es (some (returned (ready r), s', w'))
    ready-Completed es s s' w' r h f same = (
      f,
      sym (append-nil (calls.calls s'.f))
          ∙ ap (λ x. calls.calls s'.f ++ oks (remaining st set call fin calls x)) (sym h.0)
          ∙ h.2
          ∙ same,
      h.0,
      h.1,
    )

    -- A poll that is pending leaves one poll less.
    pub pending-Open :
        (es : List A) (m n : ℕ) (between : W → W)
        → ((w : W) → log.errors (between w) ≡ log.errors w)
        → (s s' : ForEachConcurrentThenTry st set call) (w w' : W) → Open es m (suc n) s w
        → Answers st set call fin calls s (some (returned pending, s', w'))
        → Found st set call log s' w'
        → After st set call d (delays st set call d s) (returned pending) s' w'
        → Open es m n s' (between w')
    pending-Open es m n between quiet s s' w w' o h f g = record {
      limit = g.0;
      few = omega (arith, o.few, g.1);
      fuel = omega (arith, o.fuel, h.less);
      found = f ∙ ap head? (sym (quiet w'));
      same = h.same ∙ o.same;
    }

    go_round-Completed :
        (es : List A) (m n : ℕ) (between : W → W)
        (again : ForEachConcurrentThenTry st set call → W → Option (Answer st set call))
        → ((w : W) → log.errors (between w) ≡ log.errors w)
        → ((s : ForEachConcurrentThenTry st set call) (w : W)
            → Open es m n s w
            → Completed calls log es (again s w))
        → (s : ForEachConcurrentThenTry st set call) (w : W) (a : Option (Answer st set call))
        → Open es m (suc n) s w
        → Answers st set call fin calls s a
        → Gives st set call (Found st set call log) (Returns st set call log) a
        → Gives st set call
            (Before st set call d (delays st set call d s))
            (After st set call d (delays st set call d s))
            a
        → Completed calls log es (go_round (λ s' w'. again s' (between w')) a)
    unfolding go_round
    go_round-Completed es m n between again quiet ih s w none o h f g = absurd h
    go_round-Completed es m n between again quiet ih s w (some (unwound, s', w')) o h f g = absurd g
    go_round-Completed es m n between again quiet ih s w (some (returned pending, s', w')) o h f g =
        ih s' (between w') (pending-Open es m n between quiet s s' w w' o h f g)
    go_round-Completed es m n between again quiet ih s w (some (returned (ready r), s', w')) o h f
          g =
        ready-Completed es s s' w' r h f o.same

    run-Open :
        (es : List A) (m n : ℕ) (between : W → W)
        → ((w : W) → log.errors (between w) ≡ log.errors w)
        → (s : ForEachConcurrentThenTry st set call) (w : W) → Open es m n s w
        → Completed calls log es (run between m n s w)
    unfolding run
    run-Open es m zero between quiet s w o = absurd (omega (arith, o.few))
    run-Open es m (suc n) between quiet s w o =
        go_round-Completed es m n between (run between m n) quiet (run-Open es m n between quiet) s
          w (poll st set call m s w) o (poll-Answers st set call fin calls m s w o.fuel)
          (poll-Returns st set call log fin calls m s w o.fuel o.found)
          (poll-Delay st set call d (delays st set call d s) fin calls m s w o.fuel
            (o.limit, omega arith))

    -- `for_each_concurrent_then_try` on a stream that yields finitely many items completes, when
    -- neither the stream nor the closure nor a future panics. It is enough to poll it once more
    -- often than the stream, its errors and the futures can delay it, with fuel for the items of
    -- the stream. Then the closure has got every element of the stream, in order; the stream has
    -- ended and no future is left; and the result is the first error that occurred, or a success if
    -- none did. The task is polled again after a pending answer whether or not it was woken, and
    -- what changes between two polls is not among the errors that occurred.
    pub run-for_each_concurrent_then_try :
        {L : Type 0} (into : L → Option ℕ) (between : W → W) (x : st.Stream) (limit : L) (f : Fn)
        (w : W)
        → ((v : W) → log.errors (between v) ≡ log.errors v)
        → log.errors w ≡ []
        → Completed calls log (calls.calls f ++ oks (fin.rest x)) (
            run between
              (suc (length (fin.rest x) * 2))
              (suc (d.delay x))
              (for_each_concurrent_then_try st set call into x limit f)
              w)
    unfolding for_each_concurrent_then_try new
    run-for_each_concurrent_then_try into between x limit f w quiet clean =
        run-Open (calls.calls f ++ oks (fin.rest x)) (suc (length (fin.rest x) * 2))
          (suc (d.delay x)) between quiet (for_each_concurrent_then_try st set call into x limit f)
          w
          (record {
            limit = non_zero-IsLimit (into limit);
            few = omega (arith, d.lag-empty);
            fuel = omega (arith, set.len-empty);
            found = ap head? (sym clean);
            same = refl;
          })
