-- ===== src/Stream/ForEach/Loop.antt =====
-- The whole of `ForEachConcurrentThenTry::poll`, and what its answers mean.
use cancel_safe_futures.Base.{
  Outcome, returned, unwound, ℕ, zero, suc, ◌<◌, ◌≡◌, Bool, true, false, Option, none, some, Result,
  pending, ready, arith,
}
use cancel_safe_futures.Stream.Defs.{TryStream, IsFinite}
use cancel_safe_futures.Stream.ForEach.Defs.{
  FuturesUnordered, Iteration, finished, progress, Answer, after_iteration, iterate, poll,
}
use cancel_safe_futures.Stream.ForEach.Laws.{Logged, State, work, elements, Kept, Within}
use cancel_safe_futures.Stream.ForEach.Iteration.{Ends, Iterated, iterate_lem, iterate-Within}

module _ {W A E Fut Fn : Type 0} (st : TryStream W A E)
    (set : FuturesUnordered W Fut (Result (Unit {0}) E)) (call : Fn → A → Outcome Fut × Fn)
    (fin : IsFinite st) (log : Logged call) where
  abbrev pub Answers : State st set call fin log → Option (Answer st set call) → Type 0
  Answers s none = ⊥
  Answers s (some (unwound, s', w)) = Kept st set call fin log false s s'
  Answers s (some (returned (ready r), s', w)) =
      (s'.stream ≡ none)
      × (set.len s'.futures ≡ 0)
      × (elements st set call fin log s' ≡ elements st set call fin log s)
      × Ends st set call fin log s.first_error r
  Answers s (some (returned pending, s', w)) = Kept st set call fin log false s s'

  -- A state reached through `s1` from `s`.
  Answers-trans :
      (made : Bool) (s s1 : State st set call fin log) (a : Option (Answer st set call))
      → Kept st set call fin log made s s1
      → Answers s1 a
      → Answers s a
  Answers-trans made s s1 none k h = h
  Answers-trans made s s1 (some (returned (ready r), s', w)) k h = ground arith
  Answers-trans made s s1 (some (returned pending, s', w)) k h = ground arith
  Answers-trans made s s1 (some (unwound, s', w)) k h = ground arith

  after_iteration_lem :
      (n : ℕ) (again : State st set call fin log → W → Option (Answer st set call))
      → ((s : State st set call fin log) (w : W)
          → work st set call fin log s < n
          → Answers s (again s w))
      → (s : State st set call fin log)
        (r : Outcome (Iteration st set call) × State st set call fin log × W)
      → Iterated st set call fin log s r
      → work st set call fin log s < suc n
      → Answers s (after_iteration st set call again r)
  unfolding after_iteration
  after_iteration_lem n again ih s (unwound, s', w) h few = h
  after_iteration_lem n again ih s (returned (finished r), s', w) h few = h
  after_iteration_lem n again ih s (returned (progress true), s', w) h few =
      let less = h.less in Answers-trans true s s' (again s' w) h (ih s' w (omega arith))
  after_iteration_lem n again ih s (returned (progress false), s', w) h few = h

  -- One poll ends: fuel above the work that is left is enough. If the answer is ready, the stream
  -- and all futures have ended, the closure has got every element that the stream had to give, and
  -- the first error at hand is the result. If it is pending, or if the stream, the closure or a
  -- future panics, the elements handed out and those to come are what they were, and an error at
  -- hand is kept.
  pub poll-Answers :
      (n : ℕ) (s : State st set call fin log) (w : W)
      → work st set call fin log s < n
      → Answers s (poll st set call n s w)
  unfolding poll
  poll-Answers zero s w h = absurd (omega arith)
  poll-Answers (suc n) s w h =
      after_iteration_lem n (poll st set call n) (poll-Answers n) s (iterate st set call s w)
        (iterate_lem st set call fin log s w) h

  abbrev pub Bounded : Option (Answer st set call) → Type 0
  Bounded none = Unit
  Bounded (some (out, s', w)) = Within s'.limit (set.len s'.futures)

  after_iteration-Within :
      (again : State st set call fin log → W → Option (Answer st set call))
      → ((s : State st set call fin log) (w : W)
          → Within s.limit (set.len s.futures)
          → Bounded (again s w))
      → (r : Outcome (Iteration st set call) × State st set call fin log × W)
      → Within r.1.limit (set.len r.1.futures)
      → Bounded (after_iteration st set call again r)
  unfolding after_iteration
  after_iteration-Within again ih (unwound, s', w) h = h
  after_iteration-Within again ih (returned (finished r), s', w) h = h
  after_iteration-Within again ih (returned (progress true), s', w) h = ih s' w h
  after_iteration-Within again ih (returned (progress false), s', w) h = h

  -- At most `limit` futures run after a poll, if that was so before it, whatever the fuel.
  pub poll-Within :
      (n : ℕ) (s : State st set call fin log) (w : W)
      → Within s.limit (set.len s.futures)
      → Bounded (poll st set call n s w)
  unfolding poll
  poll-Within zero s w h = tt
  poll-Within (suc n) s w h =
      after_iteration-Within (poll st set call n) (poll-Within n) (iterate st set call s w)
        (iterate-Within st set call fin log s w h)
