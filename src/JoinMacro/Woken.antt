-- ===== src/JoinMacro/Woken.antt =====
-- src/macros/join_then_try.rs: what the macro expands to, awaited by a task that is polled only
-- when it was woken.
use mathlib.Core.Path.{subst, subst₂}
use cancel_safe_futures.Base.{
  ℕ, ◌<◌, ◌≡◌, ◌∙◌, refl, sym, ap, Bool, true, false, List, [], ◌∷◌, ◌++◌, map, length, Option,
  none, some, Result, Poll, Outcome, returned, unwound, arith,
}
use cancel_safe_futures.Future.MaybeDone.{Stage, MaybeDone, views}
use cancel_safe_futures.Future.Round.{poll_all, all_ready, verdict}
use cancel_safe_futures.Future.Promise.{Settles, Finishes, AllDue}
use cancel_safe_futures.Future.Waking.{Arms, Rearms, poll_all-Rearms}
use cancel_safe_futures.Future.Woken.{
  Woken, AllArmed-Woken, Calls, block_on_woken, block_on_woken-block_on,
}
use cancel_safe_futures.JoinMacro.Defs.{JoinThenTry, next_skip, join_then_try, poll, Answer}
use cancel_safe_futures.JoinMacro.Loop.{poll_rotated}
use cancel_safe_futures.JoinMacro.Polling.{Joined, poll-Joined}
use cancel_safe_futures.JoinMacro.Rotation.{next_skip_bound}
use cancel_safe_futures.JoinMacro.Split.{cut}
use cancel_safe_futures.JoinMacro.Sizes.{length-views, length-poll_rotated}
use cancel_safe_futures.JoinMacro.Waking.{then_front-Rearms}
use cancel_safe_futures.JoinMacro.Macro.{
  Expansion, at_once, joined, as_joined, expand, poll_expansion, expand-join_then_try,
}
use cancel_safe_futures.Future.Noted.{noting, OverIfReady, block_on_woken-noting}
use cancel_safe_futures.JoinMacro.Finished.{no_branch_left, all_finished, poll-no_branch_left}
use cancel_safe_futures.JoinMacro.Run.{block_on-expand}

module _ {W F A E : Type 0} {poll_future : F → W → Outcome (Poll (Result A E)) × F × W}
    (maybe : MaybeDone W F (Result A E) poll_future) (will_wake : W → Bool)
    (arms : (f : F) (w : W) → Arms (Woken will_wake) w (poll_future f w)) where
  -- The next poll begins at a branch.
  abbrev Inside : JoinThenTry maybe → Type 0
  Inside j = j.skip_next_time < length j.futures

  abbrev InsideIfJoined : Expansion maybe → Type 0
  InsideIfJoined at_once = Unit
  InsideIfJoined (joined j) = Inside j

  Joined-Calls :
      (panics all : Bool) (ss : List (Stage F (Result A E))) (w w1 : W) (skip : ℕ)
      (a : Option (Answer maybe))
      → all_ready ss ≡ all
      → skip < length ss
      → Rearms (Woken will_wake) w (panics, ss, w1)
      → Joined maybe panics all ss w1 skip a
      → Calls will_wake Inside a
  Joined-Calls panics all ss w w1 skip none e i h j = tt
  Joined-Calls panics all ss w w1 skip (some (unwound, k, v)) e i h j = tt
  Joined-Calls panics all ss w w1 skip (some (returned (Poll.ready r), k, v)) e i h j = tt
  Joined-Calls true all ss w w1 skip (some (returned Poll.pending, k, v)) e i h j = cc (j.0)
  Joined-Calls false true ss w w1 skip (some (returned Poll.pending, k, v)) e i h j = cc (j.0)
  Joined-Calls false false ss w w1 skip (some (returned Poll.pending, k, v)) e i h j =
      let same : length k.futures ≡ length ss =
        sym (length-views maybe k.futures) ∙ ap length j.1 in
      (ap will_wake j.4 ∙ AllArmed-Woken will_wake ss w1 j.2 e h.0, omega (arith, j.3))

  poll_at :
      (front : List maybe.Cell) (b : maybe.Cell) (back : List maybe.Cell) (w : W)
      → let j : JoinThenTry maybe = record {
        futures = front ++ b ∷ back;
        skip_next_time = length front;
      } in
        Inside j → Calls will_wake Inside (poll maybe 2 j w)
  poll_at front b back w h =
      let (panics, ss, w1) = poll_rotated maybe front (b ∷ back) w in
      let count = length (front ++ b ∷ back) in
      let size = length-poll_rotated maybe front (b ∷ back) w in
      let bound = next_skip_bound count (length front) h in
      Joined-Calls panics (all_ready ss) ss w w1 (next_skip count (length front)) _ refl
        (omega (arith, size, bound))
        (then_front-Rearms maybe (Woken will_wake) arms (views maybe front) w
          (poll_all poll_future (views maybe (b ∷ back)) w)
          (poll_all-Rearms (Woken will_wake) poll_future arms (views maybe (b ∷ back)) w))
        (poll-Joined maybe 0 front b back w)

  poll-Calls :
      (j : JoinThenTry maybe) (w : W) → Inside j → Calls will_wake Inside (poll maybe 2 j w)
  poll-Calls j w h =
      let c = cut j.futures j.skip_next_time h in
      subst₂
        (λ cs k.
          let i : JoinThenTry maybe = record { futures = cs; skip_next_time = k } in
          Inside i → Calls will_wake Inside (poll maybe 2 i w))
        (sym c.whole) (sym c.before) (poll_at c.front c.at c.back w) h

  as_joined-Calls :
      (a : Option (Answer maybe))
      → Calls will_wake Inside a
      → Calls will_wake InsideIfJoined (as_joined maybe a)
  as_joined-Calls none h = tt
  as_joined-Calls (some (unwound, j, w)) h = tt
  as_joined-Calls (some (returned Poll.pending, j, w)) h = h
  as_joined-Calls (some (returned (Poll.ready r), j, w)) h = tt

  poll_expansion-Calls :
      (x : Expansion maybe) (w : W)
      → InsideIfJoined x
      → Calls will_wake InsideIfJoined (poll_expansion maybe x w)
  unfolding poll_expansion
  poll_expansion-Calls at_once w h = tt
  poll_expansion-Calls (joined j) w h = as_joined-Calls (poll maybe 2 j w) (poll-Calls j w h)

  expand-InsideIfJoined : (fs : List F) → InsideIfJoined (expand maybe fs)
  unfolding expand join_then_try
  expand-InsideIfJoined [] = tt
  expand-InsideIfJoined (f ∷ fs) =
      subst InsideIfJoined (sym (expand-join_then_try maybe f fs)) (omega arith)

  -- What an executor asks of a poll, and what a poll that is ready leaves.
  Calls-OverIfReady :
      (x : Expansion maybe) (w : W) (a : Option (Answer maybe))
      → Calls will_wake Inside a
      → OverIfReady (λ j. Unit) (no_branch_left maybe) a
      → OverIfReady InsideIfJoined (all_finished maybe x w) (as_joined maybe a)
  unfolding all_finished
  Calls-OverIfReady x w none c o = tt
  Calls-OverIfReady x w (some (unwound, j, v)) c o = tt
  Calls-OverIfReady x w (some (returned Poll.pending, j, v)) c o = c.1
  Calls-OverIfReady x w (some (returned (Poll.ready r), j, v)) c o = o

  poll_expansion-all_finished :
      (x : Expansion maybe) (w : W)
      → InsideIfJoined x
      → OverIfReady InsideIfJoined (all_finished maybe x w) (poll_expansion maybe x w)
  unfolding poll_expansion all_finished
  poll_expansion-all_finished at_once w h = refl
  poll_expansion-all_finished (joined j) w h =
      Calls-OverIfReady (joined j) w (poll maybe 2 j w) (poll-Calls j w h)
        (poll-no_branch_left maybe j w h)

  -- `join_then_try!` of any list of futures, none included, is ready after at most `n` polls under
  -- an executor that polls the task again only when it was woken, if each of them is and `n` is not
  -- 0. The result is the first error in the order of the branches, or else all outputs in that
  -- order. The branches run concurrently, and none is dropped when another fails: the poll that is
  -- ready leaves no branch with a future that has not finished. All this holds if no branch panics,
  -- the output of each does not depend on when it is polled, a poll of a branch that is pending
  -- arranges a wake-up, and no poll of a branch undoes one. The world may change between the polls.
  pub block_on_woken-expand :
      (out : F → Result A E)
      → ((f : F) (w : W) → Settles out f (poll_future f w))
      → (left : F → ℕ) → ((f : F) (w : W) → Finishes left f (poll_future f w))
      → (between : W → W) (fs : List F) (n : ℕ) (w : W) → 0 < n
      → AllDue left n fs
      → block_on_woken will_wake
          (noting (all_finished maybe) (poll_expansion maybe))
          between
          n
          (expand maybe fs)
          w
        ≡ some (returned (verdict (map out fs), true))
  block_on_woken-expand out settles left finishes between fs n w h d =
      let x = expand maybe fs in
      let inside = expand-InsideIfJoined fs in
      block_on_woken-noting will_wake InsideIfJoined (verdict (map out fs)) (all_finished maybe)
        (poll_expansion maybe) between poll_expansion-all_finished n x w inside
        (block_on_woken-block_on will_wake InsideIfJoined (poll_expansion maybe) between
            poll_expansion-Calls n x w inside
          ∙ block_on-expand maybe out settles left finishes between fs n w h d)
