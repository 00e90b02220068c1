-- ===== src/JoinMacro/Polling.antt =====
-- What one poll of the future of `join_then_try!` does.
use mathlib.Core.Path.{ap₂}
use cancel_safe_futures.Base.{
  ℕ, suc, ◌≡◌, refl, ap, ◌∙◌, Bool, true, false, not, ◌&&◌, List, [], ◌∷◌, ◌++◌, length, Option,
  none, some, Result, ok, err, Poll, Outcome, returned, unwound, arith,
}
use cancel_safe_futures.Future.MaybeDone.{Stage, future, done, gone, MaybeDone, Takes, views}
use cancel_safe_futures.Future.Round.{
  poll_all, is_done, all_ready, none_running, all_ready-none_running, Intact, outputs, verdict,
  first_err-some, poll_all-Intact,
}
use cancel_safe_futures.JoinMacro.Defs.{
  next_skip, run_loop, take_branch, take_branches, Answer, ready_of, conclude, poll,
}
use cancel_safe_futures.JoinMacro.Loop.{Looped, then_front, poll_rotated, run_loop-Looped}

module _ {W F A E : Type 0} {poll_future : F → W → Outcome (Poll (Result A E)) × F × W}
    (maybe : MaybeDone W F (Result A E) poll_future) where
  prepend_lem :
      (o : Result A E) (c : maybe.Cell) (cs cs' : List maybe.Cell) (outs : List (Result A E))
      → (take_branch maybe (some o, c) cs (returned (verdict outs), cs')).0
        ≡ returned (verdict (o ∷ outs))
  unfolding take_branch
  prepend_lem (ok a) c cs cs' outs = ground arith
  prepend_lem (err e) c cs cs' outs = ground (arith, first_err-some e outs)

  take_branch_lem :
      (s : Stage F (Result A E)) (r : Option (Result A E) × maybe.Cell) (cs : List maybe.Cell)
      (ss : List (Stage F (Result A E))) (rest : Outcome (Result (List A) E) × List maybe.Cell)
      → Takes maybe.view s r
      → (is_done s && all_ready ss) ≡ true
      → (all_ready ss ≡ true → rest.0 ≡ returned (verdict (outputs ss)))
      → (take_branch maybe r cs rest).0 ≡ returned (verdict (outputs (s ∷ ss)))
  take_branch_lem (future f) r cs ss rest t h ih = cc
  take_branch_lem gone r cs ss rest t h ih = cc
  take_branch_lem (done o) (out, c) cs ss (r, cs') t h ih =
      ap₂ (λ x y. (take_branch maybe (x, c) cs (y, cs')).0) t.0 (ih h)
      ∙ prepend_lem o c cs cs' (outputs ss)

  take_branches_lem :
      (cs : List maybe.Cell)
      → all_ready (views maybe cs) ≡ true
      → (take_branches maybe cs).0 ≡ returned (verdict (outputs (views maybe cs)))
  unfolding take_branches
  take_branches_lem [] h = refl
  take_branches_lem (c ∷ cs) h =
      take_branch_lem (maybe.view c) (maybe.take_output c) cs (views maybe cs)
        (take_branches maybe cs) (maybe.take_output_law c) h (take_branches_lem cs)

  take_branch-none_running :
      (s : Stage F (Result A E)) (r : Option (Result A E) × maybe.Cell) (cs : List maybe.Cell)
      (rest : Outcome (Result (List A) E) × List maybe.Cell)
      → Takes maybe.view s r
      → is_done s ≡ true
      → none_running (views maybe cs) ≡ true
      → none_running (views maybe rest.1) ≡ true
      → none_running (views maybe (take_branch maybe r cs rest).1) ≡ true
  unfolding take_branch
  take_branch-none_running (future f) r cs rest t h i k = cc
  take_branch-none_running gone r cs rest t h i k = cc
  take_branch-none_running (done o) (none, c) cs rest t h i k = cc (t.0)
  take_branch-none_running (done o) (some (err e), c) cs rest t h i k = rw (t.1) i
  take_branch-none_running (done o) (some (ok a), c) cs (out, cs') t h i k = rw (t.1) k

  take_branches-none_running :
      (cs : List maybe.Cell)
      → all_ready (views maybe cs) ≡ true
      → none_running (views maybe (take_branches maybe cs).1) ≡ true
  unfolding take_branches
  take_branches-none_running [] h = refl
  take_branches-none_running (c ∷ cs) h =
      let both : (is_done (maybe.view c) ≡ true) × (all_ready (views maybe cs) ≡ true) =
        ground arith in
      take_branch-none_running (maybe.view c) (maybe.take_output c) cs (take_branches maybe cs)
        (maybe.take_output_law c) both.0 (all_ready-none_running (views maybe cs) both.1)
        (take_branches-none_running cs both.1)

  -- How a poll answers, when the two rounds gave the stages `ss` and the world `w`. If a branch
  -- panicked, the poll unwinds with the branches at these stages. If all branches are done, it is
  -- ready with the first error in the order of the list, or else all outputs in that order; if not,
  -- it is pending with the branches at these stages. The next poll skips `skip` branches.
  abbrev pub Joined :
      Bool → Bool → List (Stage F (Result A E)) → W → ℕ → Option (Answer maybe) → Type 0
  Joined panics all ss w skip none = ⊥
  Joined true all ss w skip (some (out, j, w')) =
      (out ≡ unwound) × (views maybe j.futures ≡ ss) × (j.skip_next_time ≡ skip) × (w' ≡ w)
  Joined false true ss w skip (some (out, j, w')) =
      (out ≡ returned (Poll.ready (verdict (outputs ss))))
      × (j.skip_next_time ≡ skip)
      × (w' ≡ w)
      × (none_running (views maybe j.futures) ≡ true)
  Joined false false ss w skip (some (out, j, w')) =
      (out ≡ returned Poll.pending)
      × (views maybe j.futures ≡ ss)
      × Intact ss
      × (j.skip_next_time ≡ skip)
      × (w' ≡ w)

  conclude_lem :
      (panics all : Bool) (ss : List (Stage F (Result A E))) (w : W) (skip : ℕ)
      (r : Option (Outcome Bool × List maybe.Cell × W))
      → all_ready ss ≡ all
      → (panics ≡ false → Intact ss)
      → Looped maybe panics (not all) ss w r
      → Joined panics all ss w skip (conclude maybe skip r)
  unfolding conclude
  conclude_lem panics all ss w skip none e i h = absurd h
  conclude_lem true all ss w skip (some (unwound, cs, w')) e i h = (refl, h.1, refl, h.2)
  conclude_lem true all ss w skip (some (returned true, cs, w')) e i h = cc (h.0)
  conclude_lem true all ss w skip (some (returned false, cs, w')) e i h = cc (h.0)
  conclude_lem false true ss w skip (some (unwound, cs, w')) e i h = cc (h.0)
  conclude_lem false true ss w skip (some (returned true, cs, w')) e i h = cc (h.0)
  conclude_lem false true ss w skip (some (returned false, cs, w')) e i h =
      let done_all : all_ready (views maybe cs) ≡ true = ap all_ready h.1 ∙ e in
      (
        ap (ready_of maybe) (take_branches_lem cs done_all)
            ∙ ap (λ ss. returned (Poll.ready (verdict (outputs ss)))) h.1,
        refl,
        h.2,
        take_branches-none_running cs done_all,
      )
  conclude_lem false false ss w skip (some (unwound, cs, w')) e i h = cc (h.0)
  conclude_lem false false ss w skip (some (returned true, cs, w')) e i h =
      (refl, h.1, i refl, refl, h.2)
  conclude_lem false false ss w skip (some (returned false, cs, w')) e i h = cc (h.0)

  Intact-append : (ss ts : List (Stage F (Result A E))) → Intact ss → Intact ts → Intact (ss ++ ts)
  Intact-append [] ts h k = k
  Intact-append (future f ∷ ss) ts h k = Intact-append ss ts h k
  Intact-append (done o ∷ ss) ts h k = Intact-append ss ts h k
  Intact-append (gone ∷ ss) ts h k = absurd h

  then_front-Intact :
      (vf : List (Stage F (Result A E))) (q : Bool × List (Stage F (Result A E)) × W)
      → (q.0 ≡ false → Intact q.1)
      → (then_front maybe vf q).0 ≡ false
      → Intact (then_front maybe vf q).1
  then_front-Intact vf (true, sb, w) h e = cc
  then_front-Intact vf (false, sb, w) h e =
      Intact-append (poll_all poll_future vf w).1 sb (poll_all-Intact poll_future vf w e) (h refl)

  -- A poll that skips the branches in `front` ends, with fuel for two rounds. It polls every branch
  -- that has not finished exactly once, those in `front` last, whether or not others have failed;
  -- if one panics, those that are not yet polled stay as they are. It panics only if a branch does,
  -- or if an output has been taken before. It answers by `Joined`, and the next poll skips one
  -- branch more, or none.
  pub poll-Joined :
      (n : ℕ) (front : List maybe.Cell) (b : maybe.Cell) (back : List maybe.Cell) (w : W)
      → let (panics, ss, w1) = poll_rotated maybe front (b ∷ back) w in
        Joined panics (all_ready ss) ss w1 (next_skip (length (front ++ b ∷ back)) (length front)) (
          poll maybe
            (suc (suc n))
            (record { futures = front ++ b ∷ back; skip_next_time = length front })
            w)
  unfolding poll
  poll-Joined n front b back w =
      let (panics, ss, w1) = poll_rotated maybe front (b ∷ back) w in
      let count = length (front ++ b ∷ back) in
      conclude_lem panics (all_ready ss) ss w1 (next_skip count (length front))
        (run_loop maybe (suc (suc n)) (front ++ b ∷ back) (length front) count false w) refl
        (then_front-Intact (views maybe front) (poll_all poll_future (views maybe (b ∷ back)) w)
          (poll_all-Intact poll_future (views maybe (b ∷ back)) w))
        (run_loop-Looped maybe n front b back w)
