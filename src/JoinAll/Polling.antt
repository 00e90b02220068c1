-- ===== src/JoinAll/Polling.antt =====
-- What one poll of a small `JoinAllThenTry` does.
use mathlib.Core.Path.{ap₂}
use cancel_safe_futures.Base.{
  ◌≡◌, ◌∙◌, refl, Bool, true, false, List, [], ◌∷◌, Option, some, Result, ok, err, Poll, ready,
  Outcome, returned, unwound, if◌then◌else◌, arith, ◌&&◌,
}
use cancel_safe_futures.Future.MaybeDone.{Stage, future, done, gone, MaybeDone, Takes, views}
use cancel_safe_futures.Future.Round.{
  poll_all, is_done, all_ready, Intact, outputs, verdict, first_err-some, poll_all-Intact,
}
use cancel_safe_futures.JoinAll.Small.{
  FinalState, poll_elems, add_output, take_outputs, conclude, poll_small,
}

module _ {A E : Type 0} where
  add_output_lem :
      (o : Result A E) (outs : List (Result A E))
      → add_output (returned (verdict outs)) (some o) ≡ returned (verdict (o ∷ outs))
  unfolding add_output
  add_output_lem (ok a) outs = ground arith
  add_output_lem (err e) outs = ground (arith, first_err-some e outs)

module _ {W F A E : Type 0} {poll_future : F → W → Outcome (Poll (Result A E)) × F × W}
    (maybe : MaybeDone W F (Result A E) poll_future) where
  -- The loop polls every cell once, in order, and notes whether one is still pending. A panic ends
  -- it.
  poll_elems_lem :
      (cs : List maybe.Cell) (state : FinalState) (w : W)
      → let (panics, ss, w1) = poll_all poll_future (views maybe cs) w in
        let (out, cs', w') = poll_elems maybe cs state w in
        (out ≡ (
          if panics
          then unwound
          else returned (if all_ready ss then state else FinalState.pending)))
        × (views maybe cs' ≡ ss)
        × (w' ≡ w1)
  unfolding poll_elems poll_all
  poll_elems_lem [] state w = (refl, refl, refl)
  poll_elems_lem (c ∷ cs) state w =
      let w1 = (maybe.poll c w).2 in
      ground (
        arith,
        maybe.poll_law c w,
        poll_elems_lem cs state w1,
        poll_elems_lem cs FinalState.pending w1,
      )

  add_stage :
      (s : Stage F (Result A E)) (r : Option (Result A E) × maybe.Cell)
      (ss : List (Stage F (Result A E))) (rest : Outcome (Result (List A) E))
      → Takes maybe.view s r
      → (is_done s && all_ready ss) ≡ true
      → (all_ready ss ≡ true → rest ≡ returned (verdict (outputs ss)))
      → add_output rest r.0 ≡ returned (verdict (outputs (s ∷ ss)))
  add_stage (future f) r ss rest t h ih = cc
  add_stage gone r ss rest t h ih = cc
  add_stage (done o) r ss rest t h ih = ap₂ add_output (ih h) t.0 ∙ add_output_lem o (outputs ss)

  take_outputs_lem :
      (cs : List maybe.Cell)
      → all_ready (views maybe cs) ≡ true
      → take_outputs maybe cs ≡ returned (verdict (outputs (views maybe cs)))
  unfolding take_outputs
  take_outputs_lem [] h = refl
  take_outputs_lem (c ∷ cs) h =
      add_stage (maybe.view c) (maybe.take_output c) (views maybe cs) (take_outputs maybe cs)
        (maybe.take_output_law c) h (take_outputs_lem cs)

  -- How a poll answers, when the round over the cells gave the stages `ss`. If a future panicked,
  -- it unwinds with the cells at these stages. If all are done, it is ready with the first error in
  -- the order of the list, or else all outputs in that order; no cell is left. If not, it is
  -- pending with the cells at these stages.
  abbrev pub Joined :
      Bool
      → Bool
      → List (Stage F (Result A E))
      → W
      → Outcome (Poll (Result (List A) E)) × List maybe.Cell × W
      → Type 0
  Joined true all ss w1 (out, cs', w') = (out ≡ unwound) × (views maybe cs' ≡ ss) × (w' ≡ w1)
  Joined false true ss w1 (out, cs', w') =
      (out ≡ returned (ready (verdict (outputs ss)))) × (cs' ≡ []) × (w' ≡ w1)
  Joined false false ss w1 (out, cs', w') =
      (out ≡ returned Poll.pending) × (views maybe cs' ≡ ss) × (w' ≡ w1) × Intact ss

  conclude_lem :
      (panics all : Bool) (ss : List (Stage F (Result A E))) (w1 : W)
      (r : Outcome FinalState × List maybe.Cell × W)
      → all_ready ss ≡ all
      → (panics ≡ false → Intact ss)
      → (r.0 ≡ (
          if panics
          then unwound
          else returned (if all then FinalState.all_done else FinalState.pending)))
        × (views maybe r.1 ≡ ss)
        × (r.2 ≡ w1)
      → Joined panics all ss w1 (conclude maybe r)
  unfolding conclude
  conclude_lem true all ss w1 (unwound, cs, w) e i h = (refl, h.1, h.2)
  conclude_lem true all ss w1 (returned FinalState.all_done, cs, w) e i h = cc (h.0)
  conclude_lem true all ss w1 (returned FinalState.pending, cs, w) e i h = cc (h.0)
  conclude_lem false true ss w1 (returned FinalState.all_done, cs, w) e i h =
      ground (arith, take_outputs_lem cs)
  conclude_lem false true ss w1 (returned FinalState.pending, cs, w) e i h = cc (h.0)
  conclude_lem false true ss w1 (unwound, cs, w) e i h = cc (h.0)
  conclude_lem false false ss w1 (returned FinalState.pending, cs, w) e i h =
      (refl, h.1, h.2, i refl)
  conclude_lem false false ss w1 (returned FinalState.all_done, cs, w) e i h = cc (h.0)
  conclude_lem false false ss w1 (unwound, cs, w) e i h = cc (h.0)

  -- A poll of a small `JoinAllThenTry` polls every future that has not finished exactly once, in
  -- the order of the list, whether or not others have failed; if one panics, those after it are not
  -- polled. It panics only if a future does, or if an output has been taken before, and answers by
  -- `Joined`.
  pub poll_small-Joined :
      (cs : List maybe.Cell) (w : W)
      → let (panics, ss, w1) = poll_all poll_future (views maybe cs) w in
        Joined panics (all_ready ss) ss w1 (poll_small maybe cs w)
  unfolding poll_small
  poll_small-Joined cs w =
      let (panics, ss, w1) = poll_all poll_future (views maybe cs) w in
      conclude_lem panics (all_ready ss) ss w1 (poll_elems maybe cs FinalState.all_done w) refl
        (poll_all-Intact poll_future (views maybe cs) w) (poll_elems_lem cs FinalState.all_done w)
