-- ===== src/JoinMacro/Passes.antt =====
-- The rounds over the branches in src/macros/join_then_try.rs: the first polls those after the
-- skipped ones, the second the skipped ones, and then leaves the loop.
use cancel_safe_futures.Base.{
  ℕ, ◌+◌, ◌≡◌, refl, ap, Bool, true, not, ◌||◌, List, [], ◌∷◌, ◌++◌, length, Result, Poll, Outcome,
  returned, unwound, if◌then◌else◌, arith,
}
use cancel_safe_futures.Future.MaybeDone.{Stage, MaybeDone, views, views-append}
use cancel_safe_futures.Future.Round.{poll_all, all_ready}
use cancel_safe_futures.JoinMacro.Defs.{PassEnd, left, through, after_branch, run_pass}

module _ {W F A E : Type 0} {poll_future : F → W → Outcome (Poll (Result A E)) × F × W}
    (maybe : MaybeDone W F (Result A E) poll_future) where
  abbrev pub Pass : Type 0
  Pass = Outcome PassEnd × List maybe.Cell × W

  -- A round panics, or ends as `e` says, with the cells at the stages `ss`, in the world `w`.
  abbrev pub Passed : Bool → PassEnd → List (Stage F (Result A E)) → W → Pass → Type 0
  Passed panics e ss w (out, cs, w') =
      (out ≡ (if panics then unwound else returned e)) × (views maybe cs ≡ ss) × (w' ≡ w)

  -- The branches in `front` are skipped.
  pub run_pass-skip :
      (front back : List maybe.Cell) (to_run : ℕ) (p : Bool) (w : W)
      → run_pass maybe (front ++ back) (length front) to_run p w
        ≡ (let (out, cs, w') = run_pass maybe back 0 to_run p w in (out, front ++ cs, w'))
  unfolding run_pass
  run_pass-skip [] back to_run p w = refl
  run_pass-skip (c ∷ front) back to_run p w =
      ap (λ (r : Pass). (r.0, c ∷ r.1, r.2)) (run_pass-skip front back to_run p w)

  -- Without branches to skip, and with `to_run` large enough, all are polled, up to a panic.
  pub run_pass-all :
      (cs : List maybe.Cell) (k : ℕ) (p : Bool) (w : W)
      → let (panics, ss, w1) = poll_all poll_future (views maybe cs) w in
        Passed panics
          (through 0 k (p || not (all_ready ss)))
          ss
          w1
          (run_pass maybe cs 0 (length cs + k) p w)
  unfolding run_pass after_branch poll_all
  run_pass-all [] k p w = ground arith
  run_pass-all (c ∷ cs) k p w =
      let w1 = (maybe.poll c w).2 in
      ground (arith, maybe.poll_law c w, run_pass-all cs k p w1, run_pass-all cs k true w1)

  -- With `to_run` branches before it, the round is left at `b`, if none of them panics.
  pub run_pass-front :
      (front : List maybe.Cell) (b : maybe.Cell) (back : List maybe.Cell) (p : Bool) (w : W)
      → let (panics, ss, w1) = poll_all poll_future (views maybe front) w in
        Passed panics
          (left (p || not (all_ready ss)))
          (ss ++ views maybe (b ∷ back))
          w1
          (run_pass maybe (front ++ b ∷ back) 0 (length front) p w)
  unfolding run_pass after_branch poll_all
  run_pass-front [] b back p w = ground arith
  run_pass-front (c ∷ front) b back p w =
      let w1 = (maybe.poll c w).2 in
      ground (
        arith,
        maybe.poll_law c w,
        views-append maybe front (b ∷ back),
        run_pass-front front b back p w1,
        run_pass-front front b back true w1,
      )
