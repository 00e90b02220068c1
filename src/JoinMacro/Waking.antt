-- ===== src/JoinMacro/Waking.antt =====
-- src/macros/join_then_try.rs: which wake-ups a poll that is pending has arranged.
use mathlib.Core.Path.{subst}
use cancel_safe_futures.Base.{
  ℕ, suc, sym, Bool, true, false, List, ◌∷◌, ◌++◌, length, Option, none, some, Result, Poll,
  Outcome, returned, unwound,
}
use cancel_safe_futures.Future.MaybeDone.{Stage, MaybeDone, views}
use cancel_safe_futures.Future.Round.{poll_all, all_ready}
use cancel_safe_futures.Future.Waking.{
  IfAnyPending, Arms, AllArmed, AllArmed-append, AllArmed-map, Rearms, poll_all-Rearms,
}
use cancel_safe_futures.JoinMacro.Defs.{JoinThenTry, next_skip, Answer, poll}
use cancel_safe_futures.JoinMacro.Loop.{then_front, poll_rotated}
use cancel_safe_futures.JoinMacro.Polling.{Joined, poll-Joined}

module _ {W F A E : Type 0} {poll_future : F → W → Outcome (Poll (Result A E)) × F × W}
    (maybe : MaybeDone W F (Result A E) poll_future) (armed : F → W → Type 0)
    (arms : (f : F) (w : W) → Arms armed w (poll_future f w)) where
  abbrev pub BranchesArmed : JoinThenTry maybe → W → Type 0
  BranchesArmed j w = AllArmed armed (views maybe j.futures) w

  -- The branches in front are polled last.
  both_rounds :
      (w v : W) (sb : List (Stage F (Result A E))) (r : Bool × List (Stage F (Result A E)) × W)
      → Rearms armed w (false, sb, v)
      → Rearms armed v r
      → Rearms armed w (r.0, r.1 ++ sb, r.2)
  both_rounds w v sb (true, sf, u) h k = tt
  both_rounds w v sb (false, sf, u) h k = (
    AllArmed-append armed sf sb u k.0 (AllArmed-map armed sb v u k.1 h.0),
    λ g a. k.1 g (h.1 g a),
  )

  pub then_front-Rearms :
      (vf : List (Stage F (Result A E))) (w : W) (q : Bool × List (Stage F (Result A E)) × W)
      → Rearms armed w q
      → Rearms armed w (then_front maybe vf q)
  then_front-Rearms vf w (true, sb, v) h = tt
  then_front-Rearms vf w (false, sb, v) h =
      both_rounds w v sb (poll_all poll_future vf v) h (poll_all-Rearms armed poll_future arms vf v)

  Joined-BranchesArmed :
      (panics all : Bool) (ss : List (Stage F (Result A E))) (w w1 : W) (skip : ℕ)
      (a : Option (Answer maybe))
      → Rearms armed w (panics, ss, w1)
      → Joined maybe panics all ss w1 skip a
      → IfAnyPending BranchesArmed a
  Joined-BranchesArmed panics all ss w w1 skip none h j = tt
  Joined-BranchesArmed panics all ss w w1 skip (some (unwound, k, v)) h j = tt
  Joined-BranchesArmed panics all ss w w1 skip (some (returned (Poll.ready r), k, v)) h j = tt
  Joined-BranchesArmed true all ss w w1 skip (some (returned Poll.pending, k, v)) h j = cc (j.0)
  Joined-BranchesArmed false true ss w w1 skip (some (returned Poll.pending, k, v)) h j = cc (j.0)
  Joined-BranchesArmed false false ss w w1 skip (some (returned Poll.pending, k, v)) h j =
      subst (AllArmed armed (views maybe k.futures)) (sym j.4)
        (subst (λ ts. AllArmed armed ts w1) (sym j.1) h.0)

  -- If a poll that skips the branches in `front` is pending, then every branch that still runs has
  -- arranged that the task is woken, whether or not others have failed. This holds if a poll of a
  -- branch that is pending makes such an arrangement, and no poll of a branch undoes that of
  -- another.
  pub poll-BranchesArmed :
      (n : ℕ) (front : List maybe.Cell) (b : maybe.Cell) (back : List maybe.Cell) (w : W)
      → IfAnyPending BranchesArmed (
          poll maybe
            (suc (suc n))
            (record { futures = front ++ b ∷ back; skip_next_time = length front })
            w)
  poll-BranchesArmed n front b back w =
      let (panics, ss, w1) = poll_rotated maybe front (b ∷ back) w in
      Joined-BranchesArmed panics (all_ready ss) ss w w1
        (next_skip (length (front ++ b ∷ back)) (length front)) _
        (then_front-Rearms (views maybe front) w (poll_all poll_future (views maybe (b ∷ back)) w)
          (poll_all-Rearms armed poll_future arms (views maybe (b ∷ back)) w))
        (poll-Joined maybe n front b back w)
