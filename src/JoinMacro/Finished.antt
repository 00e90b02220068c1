-- ===== src/JoinMacro/Finished.antt =====
-- src/macros/join_then_try.rs: what has become of the branches when a poll is ready.
use mathlib.Core.Path.{subst₂}
use cancel_safe_futures.Base.{
  ℕ, ◌<◌, sym, Bool, true, false, List, ◌∷◌, ◌++◌, length, Option, none, some, Result, Poll,
  Outcome, returned, unwound,
}
use cancel_safe_futures.Future.MaybeDone.{Stage, MaybeDone, views}
use cancel_safe_futures.Future.Round.{all_ready, none_running}
use cancel_safe_futures.Future.Noted.{OverIfReady}
use cancel_safe_futures.JoinMacro.Defs.{JoinThenTry, next_skip, poll, Answer}
use cancel_safe_futures.JoinMacro.Loop.{poll_rotated}
use cancel_safe_futures.JoinMacro.Polling.{Joined, poll-Joined}
use cancel_safe_futures.JoinMacro.Split.{cut}
use cancel_safe_futures.JoinMacro.Macro.{Expansion, at_once, joined}

module _ {W F A E : Type 0} {poll_future : F → W → Outcome (Poll (Result A E)) × F × W}
    (maybe : MaybeDone W F (Result A E) poll_future) where
  -- No branch is left that has not finished.
  abbrev pub no_branch_left : JoinThenTry maybe → Bool
  no_branch_left j = none_running (views maybe j.futures)

  unfoldable pub all_finished : Expansion maybe → W → Expansion maybe → Bool
  all_finished x w at_once = true
  all_finished x w (joined j) = no_branch_left j

  Joined-OverIfReady :
      (panics all : Bool) (ss : List (Stage F (Result A E))) (w : W) (skip : ℕ)
      (a : Option (Answer maybe))
      → Joined maybe panics all ss w skip a
      → OverIfReady (λ j. Unit) no_branch_left a
  Joined-OverIfReady panics all ss w skip none j = tt
  Joined-OverIfReady panics all ss w skip (some (unwound, k, v)) j = tt
  Joined-OverIfReady panics all ss w skip (some (returned Poll.pending, k, v)) j = tt
  Joined-OverIfReady true all ss w skip (some (returned (Poll.ready r), k, v)) j = cc (j.0)
  Joined-OverIfReady false true ss w skip (some (returned (Poll.ready r), k, v)) j = j.3
  Joined-OverIfReady false false ss w skip (some (returned (Poll.ready r), k, v)) j = cc (j.0)

  -- A poll that is ready leaves no branch that has not finished.
  pub poll-no_branch_left :
      (j : JoinThenTry maybe) (w : W)
      → j.skip_next_time < length j.futures
      → OverIfReady (λ k. Unit) no_branch_left (poll maybe 2 j w)
  poll-no_branch_left j w h =
      let c = cut j.futures j.skip_next_time h in
      let (panics, ss, w1) = poll_rotated maybe c.front (c.at ∷ c.back) w in
      subst₂
        (λ cs k.
          let i : JoinThenTry maybe = record { futures = cs; skip_next_time = k } in
          OverIfReady (λ k. Unit) no_branch_left (poll maybe 2 i w))
        (sym c.whole) (sym c.before)
        (Joined-OverIfReady panics (all_ready ss) ss w1
          (next_skip (length (c.front ++ c.at ∷ c.back)) (length c.front)) _
          (poll-Joined maybe 0 c.front c.at c.back w))
