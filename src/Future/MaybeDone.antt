-- ===== src/Future/MaybeDone.antt =====
-- `MaybeDone`, which is not part of the crate: a cell that holds a future, its output, or nothing
-- once the output has been taken. A future is polled in a world that holds whatever polls read and
-- change.
use cancel_safe_futures.Base.{
  Bool, true, false, refl, ap, List, [], ◌∷◌, ◌++◌, ◌≡◌, Option, none, some, Poll, pending, ready,
  Outcome, returned, unwound,
}

-- The three variants of the documentation.
pub data Stage (F Out : Type 0) : Type 0 where
  future : F → Stage F Out
  done : Out → Stage F Out
  gone : Stage F Out

module _ {F Out : Type 0} where
  abbrev pub readiness : Stage F Out → Poll (Unit {0})
  readiness (done o) = ready tt
  readiness _ = pending

  -- How a cell's poll ends.
  abbrev pub polled : Bool → Stage F Out → Outcome (Poll (Unit {0}))
  polled true s = unwound
  polled false s = returned (readiness s)

  abbrev pub Takes :
      {Cell : Type 0} → (Cell → Stage F Out) → Stage F Out → Option Out × Cell → Type 0
  Takes view (done o) (out, c) = (out ≡ some o) × (view c ≡ gone)
  Takes view s (out, c) = (out ≡ none) × (view c ≡ s)

module _ {W F Out : Type 0} where
  -- A future's poll, seen from its cell: whether it panicked, and the stage after it.
  abbrev pub settled : Outcome (Poll Out) × F × W → Bool × Stage F Out × W
  settled (returned pending, f, w) = (false, future f, w)
  settled (returned (ready o), f, w) = (false, done o, w)
  settled (unwound, f, w) = (true, future f, w)

  -- One poll of a cell. It panics by itself if the output has been taken.
  abbrev pub advance :
      (F → W → Outcome (Poll Out) × F × W) → Stage F Out → W → Bool × Stage F Out × W
  advance poll_future (future f) w = settled (poll_future f w)
  advance poll_future (done o) w = (false, done o, w)
  advance poll_future gone w = (true, gone, w)

  abbrev pub Advances :
      {Cell : Type 0}
      → (Cell → Stage F Out)
      → (F → W → Outcome (Poll Out) × F × W)
      → Stage F Out
      → W
      → Outcome (Poll (Unit {0})) × Cell × W
      → Type 0
  Advances view poll_future s w (out, c, w') =
      let (panics, s', w1) = advance poll_future s w in
      (out ≡ polled panics s') × (view c ≡ s') × (w' ≡ w1)

pub record MaybeDone (W F Out : Type 0) (poll_future : F → W → Outcome (Poll Out) × F × W)
    : Type 1 where
  pub Cell : Type 0
  pub new : F → Cell
  -- a poll panics if the future does, or if the output has been taken
  pub poll : Cell → W → Outcome (Poll (Unit {0})) × Cell × W
  pub take_output : Cell → Option Out × Cell
  pub view : Cell → Stage F Out
  pub view-new : (f : F) → view (new f) ≡ future f
  pub poll_law : (c : Cell) (w : W) → Advances view poll_future (view c) w (poll c w)
  pub take_output_law : (c : Cell) → Takes view (view c) (take_output c)

-- The stages of a list of cells.
abbrev pub views :
    {W F Out : Type 0} {poll_future : F → W → Outcome (Poll Out) × F × W}
    (maybe : MaybeDone W F Out poll_future)
    → List maybe.Cell
    → List (Stage F Out)
views maybe [] = []
views maybe (c ∷ cs) = maybe.view c ∷ views maybe cs

pub views-append :
    {W F Out : Type 0} {poll_future : F → W → Outcome (Poll Out) × F × W}
    (maybe : MaybeDone W F Out poll_future) (cs ds : List maybe.Cell)
    → views maybe (cs ++ ds) ≡ views maybe cs ++ views maybe ds
views-append maybe [] ds = refl
views-append maybe (c ∷ cs) ds = ap (λ vs. maybe.view c ∷ vs) (views-append maybe cs ds)
