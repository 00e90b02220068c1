-- ===== src/JoinAll/Outcomes.antt =====
-- The result of `join_all_then_try`, for both kinds, from the outputs of its futures.
use mathlib.Core.Path.{subst, ap₂}
use cancel_safe_futures.Base.{
  ℕ, ◌≤◌, ◌<◌, ◌≡◌, ◌∙◌, sym, refl, ap, Bool, Bool-cases, inl, inr, true, false, List, [], ◌∷◌,
  ◌++◌, append_assoc, append-nil, map, length, Option, none, some, Result, ok, err, Poll, Outcome,
  returned, unwound, arith,
}
use cancel_safe_futures.Stream.Defs.{IsFinite, oks, first_err, verdict_of}
use cancel_safe_futures.Stream.Collect.Defs.{CollectThenTry}
use cancel_safe_futures.Stream.Collect.Defs as Collect
use cancel_safe_futures.Stream.Ext.{collect_then_try}
use cancel_safe_futures.Stream.Collect.Laws.{
  collected, verdict as collect_verdict, Collects, poll-Collects, AnswerIsCalm, poll-AnswerIsCalm,
}
use cancel_safe_futures.Future.MaybeDone.{Stage, MaybeDone, views}
use cancel_safe_futures.Future.Round.{poll_all, all_ready, Intact, verdict}
use cancel_safe_futures.Future.Promise.{
  Settles, promised, outputs-promised, promised-poll_all, poll_all-calm,
}
use cancel_safe_futures.JoinAll.Small.{poll_small}
use cancel_safe_futures.JoinAll.Polling.{Joined, poll_small-Joined}
use cancel_safe_futures.JoinAll.Kinds.{
  FuturesOrdered, vec, JoinAllThenTry, small, big, new_cells, is_small, join_all_then_try, Answer,
  as_big, poll,
}

collected-vec :
    {A E : Type 0} (xs : List A) (items : List (Result A E))
    → collected (vec {A = A}) xs items ≡ xs ++ oks items
collected-vec xs [] = sym (append-nil xs)
collected-vec xs (ok a ∷ items) =
    collected-vec (xs ++ a ∷ []) items ∙ append_assoc xs (a ∷ []) (oks items)
collected-vec xs (err e ∷ items) = collected-vec xs items

module _ {W F A E : Type 0} {poll_future : F → W → Outcome (Poll (Result A E)) × F × W}
    (maybe : MaybeDone W F (Result A E) poll_future) (ordered : FuturesOrdered W F A E poll_future)
    (out : F → Result A E) (settles : (f : F) (w : W) → Settles out f (poll_future f w)) where
  abbrev pub queue-IsFinite : IsFinite ordered.queue
  queue-IsFinite = record { rest = ordered.rest out; follows = ordered.follows out settles }

  -- The result that a join is heading for.
  abbrev pub heading : JoinAllThenTry maybe ordered → Result (List A) E
  heading (small cs) = verdict (promised out (views maybe cs))
  heading (big s) = collect_verdict ordered.queue vec queue-IsFinite s

  abbrev pub IsIntact : JoinAllThenTry maybe ordered → Type 0
  IsIntact (small cs) = Intact (views maybe cs)
  IsIntact (big s) = Unit

  -- The items that the loop of one poll may go through.
  abbrev pub backlog : JoinAllThenTry maybe ordered → ℕ
  backlog (small cs) = 0
  backlog (big s) = length (ordered.rest out s.stream)

  -- New cells, all of whose outputs are to come.
  pub views-new :
      (fs : List F) → promised out (views maybe (new_cells maybe ordered fs)) ≡ map out fs
  views-new [] = refl
  views-new (f ∷ fs) = ground (arith, maybe.view-new f, views-new fs)

  pub new-Intact : (fs : List F) → Intact (views maybe (new_cells maybe ordered fs))
  new-Intact [] = tt
  new-Intact (f ∷ fs) = ground (arith, maybe.view-new f, new-Intact fs)

  heading-small :
      (fs : List F) → heading (small (new_cells maybe ordered fs)) ≡ verdict (map out fs)
  heading-small fs = ap verdict (views-new fs)

  heading-big :
      (fs : List F)
      → heading (big (collect_then_try ordered.queue vec (ordered.collect fs)))
        ≡ verdict (map out fs)
  unfolding collect_then_try
  heading-big fs = ap₂ verdict_of (ap (first_err none) (ordered.rest-collect out fs)) (
      collected-vec [] (ordered.rest out (ordered.collect fs))
      ∙ ap oks (ordered.rest-collect out fs))

  -- Whatever kind is chosen, a new join heads for the first error among the futures' outputs, in
  -- the order of the list, or else for all successes in that order.
  pub heading-join_all_then_try :
      (no_atomic_cas : Bool) (upper : Option ℕ) (fs : List F)
      → heading (join_all_then_try maybe ordered no_atomic_cas upper fs) ≡ verdict (map out fs)
  unfolding join_all_then_try
  heading-join_all_then_try true upper fs = heading-small fs
  heading-join_all_then_try false upper fs = elim (Bool-cases (is_small maybe ordered upper)) [
    | inl few ↦ rw few (heading-small fs)
    | inr many ↦ rw many (heading-big fs)
  ]

  abbrev pub Heads : JoinAllThenTry maybe ordered → Option (Answer maybe ordered) → Type 0
  Heads k none = ⊥
  Heads k (some (unwound, k', w)) = ⊥
  Heads k (some (returned Poll.pending, k', w)) =
      (heading k' ≡ heading k) × IsIntact k' × (backlog k' ≤ backlog k)
  Heads k (some (returned (Poll.ready r), k', w)) = r ≡ heading k

  Joined-Heads :
      (cs : List maybe.Cell) (panics all : Bool) (ss : List (Stage F (Result A E))) (w1 : W)
      (r : Outcome (Poll (Result (List A) E)) × List maybe.Cell × W)
      → panics ≡ false
      → all_ready ss ≡ all
      → promised out ss ≡ promised out (views maybe cs)
      → Joined maybe panics all ss w1 r
      → Heads (small cs) (some (r.0, small r.1, r.2))
  Joined-Heads cs true all ss w1 r q e p j = cc
  Joined-Heads cs false true ss w1 (returned (Poll.ready r), cs', w) q e p j =
      ground (arith, outputs-promised poll_future out ss)
  Joined-Heads cs false true ss w1 (returned Poll.pending, cs', w) q e p j = cc (j.0)
  Joined-Heads cs false true ss w1 (unwound, cs', w) q e p j = cc (j.0)
  Joined-Heads cs false false ss w1 (returned Poll.pending, cs', w) q e p j =
      (ap verdict (ap (promised out) j.1 ∙ p), subst Intact (sym j.1) j.3, omega arith)
  Joined-Heads cs false false ss w1 (returned (Poll.ready r), cs', w) q e p j = cc (j.0)
  Joined-Heads cs false false ss w1 (unwound, cs', w) q e p j = cc (j.0)

  Collects-Heads :
      (s : CollectThenTry ordered.queue (vec {A = A}))
      (a : Option (Collect.Answer ordered.queue (vec {A = A})))
      → Collects ordered.queue vec queue-IsFinite s a
      → AnswerIsCalm ordered.queue vec a
      → Heads (big s) (as_big maybe ordered a)
  Collects-Heads s none h c = h
  Collects-Heads s (some (unwound, s', w)) h c = c
  Collects-Heads s (some (returned Poll.pending, s', w)) h c = (h.0, tt, h.1)
  Collects-Heads s (some (returned (Poll.ready r), s', w)) h c = h.0

  -- Take a join of either kind from which no output has been taken, of futures that never panic and
  -- whose outputs do not depend on when they are polled. A poll of it returns, with fuel above the
  -- number of all outputs that the queue of a big join has yet to give (any fuel but zero serves a
  -- small one), and does not panic. If it is ready it gives the result that the join was heading
  -- for: the first error among the outputs at hand and to come, or else all of these. If it is
  -- pending, the join heads for the same result as before, still no output has been taken, and no
  -- more outputs than before are yet to come.
  pub poll-Heads :
      (n : ℕ) (k : JoinAllThenTry maybe ordered) (w : W)
      → IsIntact k
      → backlog k < n
      → Heads k (poll maybe ordered n k w)
  unfolding poll
  poll-Heads n (small cs) w i h =
      let (panics, ss, w1) = poll_all poll_future (views maybe cs) w in
      Joined-Heads cs panics (all_ready ss) ss w1 (poll_small maybe cs w)
        (poll_all-calm poll_future out settles (views maybe cs) w i) refl
        (promised-poll_all poll_future out settles (views maybe cs) w)
        (poll_small-Joined maybe cs w)
  poll-Heads n (big s) w i h =
      Collects-Heads s (Collect.poll ordered.queue vec n s w)
        (poll-Collects ordered.queue vec queue-IsFinite n s w h)
        (poll-AnswerIsCalm ordered.queue vec (λ xs x. tt) (ordered.calm out settles) n s w)
