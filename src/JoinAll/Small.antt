-- ===== src/JoinAll/Small.antt =====
-- src/future/join_all_then_try.rs: `JoinAllKindThenTry::Small`, a list of cells.
use cancel_safe_futures.Base.{
  List, [], ◌∷◌, Option, none, some, Result, ok, err, Poll, ready, Outcome, returned, unwound,
}
use cancel_safe_futures.Future.MaybeDone.{MaybeDone}

-- The local enum of `poll`.
pub data FinalState : Type 0 where
  pending : FinalState
  all_done : FinalState

module _ {A E : Type 0} where
  -- `.map(|e| e.take_output().unwrap()).collect()`: it stops at the first error, and `unwrap`
  -- panics on a cell that is not done.
  unfoldable pub add_output :
      Outcome (Result (List A) E) → Option (Result A E) → Outcome (Result (List A) E)
  add_output rest none = unwound
  add_output rest (some (err e)) = returned (err e)
  add_output (returned (ok xs)) (some (ok a)) = returned (ok (a ∷ xs))
  add_output (returned (err e)) (some (ok a)) = returned (err e)
  add_output unwound (some (ok a)) = unwound

module _ {W F A E : Type 0} {poll_future : F → W → Outcome (Poll (Result A E)) × F × W}
    (maybe : MaybeDone W F (Result A E) poll_future) where
  -- `for elem in iter_pin_mut(elems) { match elem.poll(cx) { … } }`
  unfoldable pub after_elem :
      (FinalState → W → Outcome FinalState × List maybe.Cell × W)
      → List maybe.Cell
      → FinalState
      → Outcome (Poll (Unit {0})) × maybe.Cell × W
      → Outcome FinalState × List maybe.Cell × W
  after_elem rest cs state (unwound, c, w) = (unwound, c ∷ cs, w)
  after_elem rest cs state (returned Poll.pending, c, w) =
      let (out, cs', w') = rest FinalState.pending w in (out, c ∷ cs', w')
  after_elem rest cs state (returned (ready u), c, w) =
      let (out, cs', w') = rest state w in (out, c ∷ cs', w')

  unfoldable pub poll_elems :
      List maybe.Cell → FinalState → W → Outcome FinalState × List maybe.Cell × W
  unfolding after_elem
  poll_elems [] state w = (returned state, [], w)
  poll_elems (c ∷ cs) state w = after_elem (poll_elems cs) cs state (maybe.poll c w)

  unfoldable pub take_outputs : List maybe.Cell → Outcome (Result (List A) E)
  unfolding add_output
  take_outputs [] = returned (ok [])
  take_outputs (c ∷ cs) = add_output (take_outputs cs) (maybe.take_output c).0

  abbrev pub ready_of : Outcome (Result (List A) E) → Outcome (Poll (Result (List A) E))
  ready_of (returned r) = returned (ready r)
  ready_of unwound = unwound

  -- `match state { … }`: the list is replaced by an empty one before the outputs are taken.
  unfoldable pub conclude :
      Outcome FinalState × List maybe.Cell × W
      → Outcome (Poll (Result (List A) E)) × List maybe.Cell × W
  unfolding take_outputs
  conclude (unwound, cs, w) = (unwound, cs, w)
  conclude (returned FinalState.pending, cs, w) = (returned Poll.pending, cs, w)
  conclude (returned FinalState.all_done, cs, w) = (ready_of (take_outputs cs), [], w)

  unfoldable pub poll_small :
      List maybe.Cell → W → Outcome (Poll (Result (List A) E)) × List maybe.Cell × W
  unfolding poll_elems conclude
  poll_small cs w = conclude (poll_elems cs FinalState.all_done w)
