-- ===== src/JoinMacro/Defs.antt =====
-- src/macros/join_then_try.rs: the closure that `poll_fn` gets. The macro unrolls the loop's body
-- over the branches; here they are a list. Their outputs have one type, which stands for the sum of
-- those of the source. The counters are of type u32 there: none exceeds the number of branches.
use cancel_safe_futures.Base.{
  ℕ, zero, suc, Bool, true, false, List, [], ◌∷◌, length, Option, none, some, Result, ok, err, Poll,
  Outcome, returned, unwound, ◌==◌, if◌then◌else◌,
}
use cancel_safe_futures.Future.MaybeDone.{MaybeDone}

-- How one round over the branches ends: by `break`, or at the last branch with `skip` and `to_run`.
-- The flag is `is_pending`.
pub data PassEnd : Type 0 where
  left : Bool → PassEnd
  through : ℕ → ℕ → Bool → PassEnd

-- `if skip + 1 == COUNT { 0 } else { skip + 1 }`
abbrev pub next_skip : ℕ → ℕ → ℕ
next_skip count skip = if suc skip == count then 0 else suc skip

module _ {W F A E : Type 0} {poll_future : F → W → Outcome (Poll (Result A E)) × F × W}
    (maybe : MaybeDone W F (Result A E) poll_future) where
  pub record JoinThenTry : Type 0 where
    pub futures : List maybe.Cell
    pub skip_next_time : ℕ

  abbrev pub cells : List F → List maybe.Cell
  cells [] = []
  cells (f ∷ fs) = maybe.new f ∷ cells fs

  unfoldable pub join_then_try : List F → JoinThenTry
  join_then_try fs = record { futures = cells fs; skip_next_time = 0 }

  -- What follows the poll of a branch.
  unfoldable pub after_branch :
      (Bool → W → Outcome PassEnd × List maybe.Cell × W)
      → List maybe.Cell
      → Bool
      → Outcome (Poll (Unit {0})) × maybe.Cell × W
      → Outcome PassEnd × List maybe.Cell × W
  after_branch rest cs is_pending (unwound, c, w) = (unwound, c ∷ cs, w)
  after_branch rest cs is_pending (returned Poll.pending, c, w) =
      let (out, cs', w') = rest true w in (out, c ∷ cs', w')
  after_branch rest cs is_pending (returned (Poll.ready u), c, w) =
      let (out, cs', w') = rest is_pending w in (out, c ∷ cs', w')

  -- The body of `loop`, from one branch on, with `skip`, `to_run` and `is_pending`.
  unfoldable pub run_pass :
      List maybe.Cell → ℕ → ℕ → Bool → W → Outcome PassEnd × List maybe.Cell × W
  unfolding after_branch
  run_pass [] skip to_run is_pending w = (returned (through skip to_run is_pending), [], w)
  run_pass (c ∷ cs) zero zero is_pending w = (returned (left is_pending), c ∷ cs, w)
  run_pass (c ∷ cs) zero (suc to_run) is_pending w =
      after_branch (run_pass cs zero to_run) cs is_pending (maybe.poll c w)
  run_pass (c ∷ cs) (suc skip) to_run is_pending w =
      let (out, cs', w') = run_pass cs skip to_run is_pending w in (out, c ∷ cs', w')

  unfoldable pub after_pass :
      (List maybe.Cell → ℕ → ℕ → Bool → W → Option (Outcome Bool × List maybe.Cell × W))
      → Outcome PassEnd × List maybe.Cell × W
      → Option (Outcome Bool × List maybe.Cell × W)
  after_pass again (unwound, cs, w) = some (unwound, cs, w)
  after_pass again (returned (left is_pending), cs, w) = some (returned is_pending, cs, w)
  after_pass again (returned (through skip to_run is_pending), cs, w) =
      again cs skip to_run is_pending w

  -- `loop`, on fuel; `none` means that the fuel ran out.
  unfoldable pub run_loop :
      ℕ → List maybe.Cell → ℕ → ℕ → Bool → W → Option (Outcome Bool × List maybe.Cell × W)
  unfolding after_pass run_pass
  run_loop zero cs skip to_run is_pending w = none
  run_loop (suc n) cs skip to_run is_pending w =
      after_pass (run_loop n) (run_pass cs skip to_run is_pending w)

  abbrev pub prepend : A → Outcome (Result (List A) E) → Outcome (Result (List A) E)
  prepend a (returned (ok xs)) = returned (ok (a ∷ xs))
  prepend a (returned (err e)) = returned (err e)
  prepend a unwound = unwound

  -- `take_output().expect(…)`, then `return` on an error or the next branch.
  unfoldable pub take_branch :
      Option (Result A E) × maybe.Cell
      → List maybe.Cell
      → Outcome (Result (List A) E) × List maybe.Cell
      → Outcome (Result (List A) E) × List maybe.Cell
  take_branch (none, c) cs rest = (unwound, c ∷ cs)
  take_branch (some (err e), c) cs rest = (returned (err e), c ∷ cs)
  take_branch (some (ok a), c) cs (out, cs') = (prepend a out, c ∷ cs')

  unfoldable pub take_branches : List maybe.Cell → Outcome (Result (List A) E) × List maybe.Cell
  unfolding take_branch
  take_branches [] = (returned (ok []), [])
  take_branches (c ∷ cs) = take_branch (maybe.take_output c) cs (take_branches cs)

  abbrev pub Answer : Type 0
  Answer = Outcome (Poll (Result (List A) E)) × JoinThenTry × W

  abbrev pub ready_of : Outcome (Result (List A) E) → Outcome (Poll (Result (List A) E))
  ready_of (returned r) = returned (Poll.ready r)
  ready_of unwound = unwound

  abbrev pub after_take : ℕ → W → Outcome (Result (List A) E) × List maybe.Cell → Answer
  after_take skip w (out, cs) = (ready_of out, record { futures = cs; skip_next_time = skip }, w)

  -- `if is_pending { Pending } else { Ready(…) }`
  unfoldable pub conclude : ℕ → Option (Outcome Bool × List maybe.Cell × W) → Option Answer
  unfolding take_branches
  conclude skip none = none
  conclude skip (some (unwound, cs, w)) =
      some (unwound, record { futures = cs; skip_next_time = skip }, w)
  conclude skip (some (returned true, cs, w)) =
      some (returned Poll.pending, record { futures = cs; skip_next_time = skip }, w)
  conclude skip (some (returned false, cs, w)) = some (after_take skip w (take_branches cs))

  unfoldable pub poll : ℕ → JoinThenTry → W → Option Answer
  unfolding run_loop conclude
  poll n j w =
      let count = length j.futures in
      conclude (next_skip count j.skip_next_time)
        (run_loop n j.futures j.skip_next_time count false w)
