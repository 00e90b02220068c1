-- ===== src/Future/Round.antt =====
-- A round over several cells, as a specification: each is polled once, in order, errors or not,
-- until one panics.
use cancel_safe_futures.Base.{
  length, Outcome, ◌≡◌, refl, Bool, true, false, not, ◌&&◌, List, [], ◌∷◌, none, some, Result, ok,
  err, Poll, arith,
}
use cancel_safe_futures.Stream.Defs.{oks, first_err, verdict_of}
use cancel_safe_futures.Future.MaybeDone.{Stage, future, done, gone, advance}

module _ {W F Out : Type 0} (poll_future : F → W → Outcome (Poll Out) × F × W) where
  -- After a cell's poll; a panic ends the round.
  abbrev pub go_on :
      (W → Bool × List (Stage F Out) × W)
      → List (Stage F Out)
      → Bool × Stage F Out × W
      → Bool × List (Stage F Out) × W
  go_on rest ss (true, s, w) = (true, s ∷ ss, w)
  go_on rest ss (false, s, w) = let (panics, ss', w') = rest w in (panics, s ∷ ss', w')

  -- Whether a cell panicked, the stages after the round, and the world.
  unfoldable pub poll_all : List (Stage F Out) → W → Bool × List (Stage F Out) × W
  poll_all [] w = (false, [], w)
  poll_all (s ∷ ss) w = go_on (poll_all ss) ss (advance poll_future s w)

module _ {F Out : Type 0} where
  abbrev pub is_done : Stage F Out → Bool
  is_done (done o) = true
  is_done _ = false

  abbrev pub all_ready : List (Stage F Out) → Bool
  all_ready [] = true
  all_ready (s ∷ ss) = is_done s && all_ready ss

  abbrev pub is_running : Stage F Out → Bool
  is_running (future f) = true
  is_running _ = false

  -- No stage holds a future that has not finished.
  abbrev pub none_running : List (Stage F Out) → Bool
  none_running [] = true
  none_running (s ∷ ss) = not (is_running s) && none_running ss

  pub all_ready-none_running :
      (ss : List (Stage F Out)) → all_ready ss ≡ true → none_running ss ≡ true
  all_ready-none_running [] h = refl
  all_ready-none_running (done o ∷ ss) h = all_ready-none_running ss h
  all_ready-none_running (future f ∷ ss) h = cc
  all_ready-none_running (gone ∷ ss) h = cc

  -- No output has been taken yet.
  abbrev pub Intact : List (Stage F Out) → Type 0
  Intact [] = Unit
  Intact (gone ∷ ss) = ⊥
  Intact (future f ∷ ss) = Intact ss
  Intact (done o ∷ ss) = Intact ss

  abbrev pub outputs : List (Stage F Out) → List Out
  outputs [] = []
  outputs (done o ∷ ss) = o ∷ outputs ss
  outputs (future f ∷ ss) = outputs ss
  outputs (gone ∷ ss) = outputs ss

-- The result of a join: the first error in the order of the list, or else all successes.
module _ {A E : Type 0} where
  abbrev pub verdict : List (Result A E) → Result (List A) E
  verdict outs = verdict_of (first_err none outs) (oks outs)

module _ {A E : Type 0} where
  pub first_err-some : (e : E) (outs : List (Result A E)) → first_err (some e) outs ≡ some e
  first_err-some e [] = refl
  first_err-some e (ok a ∷ outs) = first_err-some e outs
  first_err-some e (err d ∷ outs) = first_err-some e outs

module _ {W F Out : Type 0} (poll_future : F → W → Outcome (Poll Out) × F × W) where
  -- A round without a panic finds no cell whose output has been taken, and takes none.
  pub poll_all-Intact :
      (ss : List (Stage F Out)) (w : W)
      → (poll_all poll_future ss w).0 ≡ false
      → Intact (poll_all poll_future ss w).1
  unfolding poll_all
  poll_all-Intact [] w h = tt
  poll_all-Intact (gone ∷ ss) w h = cc
  poll_all-Intact (done o ∷ ss) w h = poll_all-Intact ss w h
  poll_all-Intact (future f ∷ ss) w h =
      let (panics, s', w1) = advance poll_future (future f) w in
      ground (arith, poll_all-Intact ss w1)

  pub length-poll_all :
      (ss : List (Stage F Out)) (w : W) → length (poll_all poll_future ss w).1 ≡ length ss
  unfolding poll_all
  length-poll_all [] w = refl
  length-poll_all (s ∷ ss) w =
      let (panics, s', w1) = advance poll_future s w in ground (arith, length-poll_all ss w1)
