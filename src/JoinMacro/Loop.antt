-- ===== src/JoinMacro/Loop.antt =====
-- The loop over the branches in src/macros/join_then_try.rs.
use mathlib.Core.Path.{subst}
use cancel_safe_futures.Base.{
  ℕ, suc, ◌+◌, ◌≡◌, refl, ap, ◌∙◌, sym, Bool, true, false, not, ◌||◌, List, [], ◌∷◌, ◌++◌, length,
  length-append, Option, none, some, Result, Poll, Outcome, returned, unwound, arith, if◌then◌else◌,
  ◌<◌,
}
use cancel_safe_futures.Future.MaybeDone.{Stage, MaybeDone, views, views-append}
use cancel_safe_futures.Future.Round.{poll_all, all_ready, length-poll_all}
use cancel_safe_futures.JoinMacro.Defs.{left, through, run_pass, after_pass, run_loop}
use cancel_safe_futures.JoinMacro.Passes.{Pass, Passed, run_pass-skip, run_pass-all, run_pass-front}

module _ {W F A E : Type 0} {poll_future : F → W → Outcome (Poll (Result A E)) × F × W}
    (maybe : MaybeDone W F (Result A E) poll_future) where
  -- The loop panics, or ends with the flag `p`.
  abbrev pub Looped :
      Bool
      → Bool
      → List (Stage F (Result A E))
      → W
      → Option (Outcome Bool × List maybe.Cell × W)
      → Type 0
  Looped panics p ss w none = ⊥
  Looped panics p ss w (some (out, cs, w')) =
      (out ≡ (if panics then unwound else returned p)) × (views maybe cs ≡ ss) × (w' ≡ w)

  abbrev pub Again : Type 0
  Again = List maybe.Cell → ℕ → ℕ → Bool → W → Option (Outcome Bool × List maybe.Cell × W)

  after_pass-left :
      (again : Again) (panics p : Bool) (ss : List (Stage F (Result A E))) (w : W) (r : Pass maybe)
      → Passed maybe panics (left p) ss w r
      → Looped panics p ss w (after_pass maybe again r)
  unfolding after_pass
  after_pass-left again true p ss w (unwound, cs, w') h = (refl, h.1, h.2)
  after_pass-left again true p ss w (returned (through k t q), cs, w') h = cc (h.0)
  after_pass-left again true p ss w (returned (left q), cs, w') h = cc (h.0)
  after_pass-left again false p ss w (unwound, cs, w') h = cc (h.0)
  after_pass-left again false p ss w (returned (through k t q), cs, w') h = cc (h.0)
  after_pass-left again false p ss w (returned (left q), cs, w') h = ground arith

  after_pass-through :
      (again : Again) (front : List maybe.Cell) (k t : ℕ) (p panics q : Bool)
      (ss ss' : List (Stage F (Result A E))) (w w' : W)
      → ((cs : List maybe.Cell)
          → views maybe cs ≡ ss
          → Looped panics q ss' w' (again (front ++ cs) k t p w))
      → (r : Pass maybe) → Passed maybe false (through k t p) ss w r
      → Looped panics q ss' w' (after_pass maybe again (r.0, front ++ r.1, r.2))
  unfolding after_pass
  after_pass-through again front k t p panics q ss ss' w w' ih (unwound, cs, v) h = cc (h.0)
  after_pass-through again front k t p panics q ss ss' w w' ih (returned (left x), cs, v) h =
      cc (h.0)
  after_pass-through again front k t p panics q ss ss' w w' ih (returned (through k' t' p'), cs, v)
        h =
      let same : again (front ++ cs) k t p w ≡ again (front ++ cs) k' t' p' v = cc in
      subst (Looped panics q ss' w') same (ih cs h.1)

  -- The second round, on cells of which one is left to stop at.
  second_pass :
      (n : ℕ) (front cs : List maybe.Cell) (sb : List (Stage F (Result A E))) (p : Bool) (w : W)
      → 0 < length sb
      → views maybe cs ≡ sb
      → let (panics, sf, w1) = poll_all poll_future (views maybe front) w in
        Looped panics
          (p || not (all_ready sf))
          (sf ++ sb)
          w1
          (run_loop maybe (suc n) (front ++ cs) 0 (length front) p w)
  unfolding run_loop
  second_pass n front [] sb p w h e = absurd (omega (arith, ap length e))
  second_pass n front (b ∷ back) sb p w h e =
      let (panics, sf, w1) = poll_all poll_future (views maybe front) w in
      let r = run_pass maybe (front ++ b ∷ back) 0 (length front) p w in
      after_pass-left (run_loop maybe n) panics (p || not (all_ready sf)) (sf ++ sb) w1 r (
        subst (λ x. Passed maybe panics (left (p || not (all_ready sf))) (sf ++ x) w1 r) e
          (run_pass-front maybe front b back p w))

  all_ready-append :
      (ss ts : List (Stage F (Result A E)))
      → (not (all_ready ts) || not (all_ready ss)) ≡ not (all_ready (ss ++ ts))
  all_ready-append [] ts = ground arith
  all_ready-append (s ∷ ss) ts = ground (arith, all_ready-append ss ts)

  -- The branches as a poll leaves them: those from the first to be polled on, then the others, if
  -- none of the former panicked.
  abbrev pub then_front :
      List (Stage F (Result A E))
      → Bool × List (Stage F (Result A E)) × W
      → Bool × List (Stage F (Result A E)) × W
  then_front vf (true, sb, w) = (true, vf ++ sb, w)
  then_front vf (false, sb, w) =
      let (panics, sf, w1) = poll_all poll_future vf w in (panics, sf ++ sb, w1)

  abbrev pub poll_rotated :
      List maybe.Cell → List maybe.Cell → W → Bool × List (Stage F (Result A E)) × W
  poll_rotated front rest w =
      then_front (views maybe front) (poll_all poll_future (views maybe rest) w)

  -- The rest of the loop, when the first round gave `r`.
  after_first :
      (n : ℕ) (front : List maybe.Cell) (q : Bool × List (Stage F (Result A E)) × W)
      (r : Pass maybe)
      → 0 < length q.1
      → Passed maybe q.0 (through 0 (length front) (not (all_ready q.1))) q.1 q.2 r
      → let (panics, ss, w) = then_front (views maybe front) q in
        Looped panics
          (not (all_ready ss))
          ss
          w
          (after_pass maybe (run_loop maybe (suc n)) (r.0, front ++ r.1, r.2))
  unfolding after_pass
  after_first n front (true, sb, w) (unwound, cs, v) h l =
      (refl, views-append maybe front cs ∙ ap (λ x. views maybe front ++ x) l.1, l.2)
  after_first n front (true, sb, w) (returned (left p), cs, v) h l = cc (l.0)
  after_first n front (true, sb, w) (returned (through k t p), cs, v) h l = cc (l.0)
  after_first n front (false, sb, w) r h l =
      let (panics, sf, w1) = poll_all poll_future (views maybe front) w in
      let again = run_loop maybe (suc n) in
      let p = not (all_ready sb) in
      subst (λ x. Looped panics x (sf ++ sb) w1 (after_pass maybe again (r.0, front ++ r.1, r.2)))
        (all_ready-append sf sb)
        (after_pass-through again front 0 (length front) p panics (p || not (all_ready sf)) sb
          (sf ++ sb) w w1 (λ cs e. second_pass n front cs sb p w h e) r l)

  -- Both rounds.
  pub run_loop-Looped :
      (n : ℕ) (front : List maybe.Cell) (b : maybe.Cell) (back : List maybe.Cell) (w : W)
      → let (panics, ss, w1) = poll_rotated front (b ∷ back) w in
        Looped panics (not (all_ready ss)) ss w1 (
          run_loop maybe
            (suc (suc n))
            (front ++ b ∷ back)
            (length front)
            (length (front ++ b ∷ back))
            false
            w)
  unfolding run_loop
  run_loop-Looped n front b back w =
      let (panics, ss, w1) = poll_rotated front (b ∷ back) w in
      let count = length (front ++ b ∷ back) in
      let all : ℕ = length (b ∷ back) + length front in
      let r = run_pass maybe (b ∷ back) 0 all false w in
      let same_count : count ≡ all = omega (arith, length-append front (b ∷ back)) in
      let start : run_pass maybe (front ++ b ∷ back) (length front) count false w
          ≡ (r.0, front ++ r.1, r.2) =
        ap (λ k. run_pass maybe (front ++ b ∷ back) (length front) k false w) same_count
        ∙ run_pass-skip maybe front (b ∷ back) all false w in
      subst
        (λ x.
          Looped panics (not (all_ready ss)) ss w1 (after_pass maybe (run_loop maybe (suc n)) x))
        (sym start)
        (after_first n front (poll_all poll_future (views maybe (b ∷ back)) w) r
          (omega (arith, length-poll_all poll_future (views maybe (b ∷ back)) w))
          (run_pass-all maybe (b ∷ back) (length front) false w))
