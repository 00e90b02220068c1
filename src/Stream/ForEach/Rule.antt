-- ===== src/Stream/ForEach/Rule.antt =====
-- A rule for the loop of `ForEachConcurrentThenTry::poll`: what holds before each iteration, and
-- what then holds of the answer.
use cancel_safe_futures.Base.{
  Outcome, returned, unwound, ℕ, zero, suc, ◌<◌, Bool, true, false, Option, none, some, Result,
  Poll, pending, ready,
}
use cancel_safe_futures.Stream.Defs.{TryStream, IsFinite}
use cancel_safe_futures.Stream.ForEach.Defs.{
  FuturesUnordered, ForEachConcurrentThenTry, Iteration, finished, progress, Answer,
  after_iteration, poll_futures, take_result, iterate, poll,
}
use cancel_safe_futures.Stream.ForEach.Laws.{Logged, work}
use cancel_safe_futures.Stream.ForEach.Loop.{Answers, poll-Answers}

module _ {W A E Fut Fn : Type 0} (st : TryStream W A E)
    (set : FuturesUnordered W Fut (Result (Unit {0}) E)) (call : Fn → A → Outcome Fut × Fn) where
  module _ (P : ForEachConcurrentThenTry st set call → W → Type 0)
      (Q : Outcome (Poll (Result (Unit {0}) E))
        → ForEachConcurrentThenTry st set call
        → W
        → Type 0) where
    -- What an iteration owes.
    abbrev pub Steps :
        Outcome (Iteration st set call) × ForEachConcurrentThenTry st set call × W → Type 0
    Steps (unwound, s, w) = Q unwound s w
    Steps (returned (finished r), s, w) = Q (returned (ready r)) s w
    Steps (returned (progress true), s, w) = P s w
    Steps (returned (progress false), s, w) = Q (returned pending) s w

    -- What the first half of an iteration owes: `H`, or the answer if it panics.
    abbrev pub Half :
        (Bool → ForEachConcurrentThenTry st set call → W → Type 0)
        → Outcome Bool × ForEachConcurrentThenTry st set call × W
        → Type 0
    Half H (unwound, s, w) = Q unwound s w
    Half H (returned made, s, w) = H made s w

    pub poll_futures-Steps :
        (H : Bool → ForEachConcurrentThenTry st set call → W → Type 0)
        → ((made : Bool) (s : ForEachConcurrentThenTry st set call) (w : W)
            → H made s w
            → Steps (take_result st set call made s (set.poll_next s.futures w)))
        → (r : Outcome Bool × ForEachConcurrentThenTry st set call × W) → Half H r
        → Steps (poll_futures st set call r)
    unfolding poll_futures
    poll_futures-Steps H second (unwound, s, w) h = h
    poll_futures-Steps H second (returned made, s, w) h = second made s w h

    -- The answer of a poll that ends.
    abbrev pub Gives : Option (Answer st set call) → Type 0
    Gives none = ⊥
    Gives (some (out, s, w)) = Q out s w

    abbrev GivesIfAny : Option (Answer st set call) → Type 0
    GivesIfAny none = Unit
    GivesIfAny (some (out, s, w)) = Q out s w

    after_iteration-Steps :
        (again : ForEachConcurrentThenTry st set call → W → Option (Answer st set call))
        → ((s : ForEachConcurrentThenTry st set call) (w : W) → P s w → GivesIfAny (again s w))
        → (r : Outcome (Iteration st set call) × ForEachConcurrentThenTry st set call × W) → Steps r
        → GivesIfAny (after_iteration st set call again r)
    unfolding after_iteration
    after_iteration-Steps again ih (unwound, s, w) h = h
    after_iteration-Steps again ih (returned (finished r), s, w) h = h
    after_iteration-Steps again ih (returned (progress true), s, w) h = ih s w h
    after_iteration-Steps again ih (returned (progress false), s, w) h = h

    module _
        (step : (s : ForEachConcurrentThenTry st set call) (w : W)
          → P s w
          → Steps (iterate st set call s w)) where
      poll-GivesIfAny :
          (n : ℕ) (s : ForEachConcurrentThenTry st set call) (w : W)
          → P s w
          → GivesIfAny (poll st set call n s w)
      unfolding poll
      poll-GivesIfAny zero s w h = tt
      poll-GivesIfAny (suc n) s w h =
          after_iteration-Steps (poll st set call n) (poll-GivesIfAny n) (iterate st set call s w)
            (step s w h)

      module _ (fin : IsFinite st) (log : Logged call) where
        returns :
            (s : ForEachConcurrentThenTry st set call) (a : Option (Answer st set call))
            → Answers st set call fin log s a
            → GivesIfAny a
            → Gives a
        returns s none h g = h
        returns s (some (returned (ready r), s', w)) h g = g
        returns s (some (returned pending, s', w)) h g = g
        returns s (some (unwound, s', w)) h g = g

        -- With fuel above the work that is left.
        pub poll-Gives :
            (n : ℕ) (s : ForEachConcurrentThenTry st set call) (w : W)
            → work st set call fin log s < n
            → P s w
            → Gives (poll st set call n s w)
        poll-Gives n s w few h =
            returns s (poll st set call n s w) (poll-Answers st set call fin log n s w few)
              (poll-GivesIfAny n s w h)
