-- ===== src/JoinAll/Waking.antt =====
-- src/future/join_all_then_try.rs: which wake-ups a join that is pending has arranged.
use mathlib.Core.Path.{subst}
use cancel_safe_futures.Base.{
  ℕ, sym, Bool, true, false, List, Option, none, some, Result, Poll, Outcome, returned, unwound,
}
use cancel_safe_futures.Stream.Collect.Defs as Collect
use cancel_safe_futures.Stream.Collect.Waking.{OfStream, poll-IfAnyPending}
use cancel_safe_futures.Future.MaybeDone.{Stage, MaybeDone, views}
use cancel_safe_futures.Future.Round.{poll_all, all_ready}
use cancel_safe_futures.Future.Waking.{
  IfPending, IfAnyPending, Arms, AllArmed, Rearms, poll_all-Rearms,
}
use cancel_safe_futures.JoinAll.Small.{poll_small}
use cancel_safe_futures.JoinAll.Polling.{Joined, poll_small-Joined}
use cancel_safe_futures.JoinAll.Kinds.{
  FuturesOrdered, vec, JoinAllThenTry, small, big, as_big, poll,
}

module _ {W F A E : Type 0} {poll_future : F → W → Outcome (Poll (Result A E)) × F × W}
    (maybe : MaybeDone W F (Result A E) poll_future) (ordered : FuturesOrdered W F A E poll_future)
    (armed : F → W → Type 0) (arms : (f : F) (w : W) → Arms armed w (poll_future f w))
    (served : ordered.queue.Stream → W → Type 0)
    (serves : (q : ordered.queue.Stream) (w : W)
      → IfPending served (ordered.queue.try_poll_next q w)) where
  -- Every future of a small join that still runs, or the queue of a big one, has arranged that the
  -- task is woken.
  abbrev pub Awake : JoinAllThenTry maybe ordered → W → Type 0
  Awake (small cs) w = AllArmed armed (views maybe cs) w
  Awake (big s) w = served s.stream w

  Joined-Awake :
      (panics all : Bool) (ss : List (Stage F (Result A E))) (w w1 : W)
      (r : Outcome (Poll (Result (List A) E)) × List maybe.Cell × W)
      → Rearms armed w (panics, ss, w1)
      → Joined maybe panics all ss w1 r
      → IfPending Awake (r.0, small r.1, r.2)
  Joined-Awake panics all ss w w1 (unwound, cs, v) a j = tt
  Joined-Awake panics all ss w w1 (returned (Poll.ready r), cs, v) a j = tt
  Joined-Awake true all ss w w1 (returned Poll.pending, cs, v) a j = cc (j.0)
  Joined-Awake false true ss w w1 (returned Poll.pending, cs, v) a j = cc (j.0)
  Joined-Awake false false ss w w1 (returned Poll.pending, cs, v) a j =
      subst (AllArmed armed (views maybe cs)) (sym j.2)
        (subst (λ ts. AllArmed armed ts w1) (sym j.1) a.0)

  as_big-Awake :
      (a : Option (Collect.Answer ordered.queue (vec {A = A})))
      → IfAnyPending (OfStream ordered.queue vec served serves) a
      → IfAnyPending Awake (as_big maybe ordered a)
  as_big-Awake none h = tt
  as_big-Awake (some (unwound, s, w)) h = tt
  as_big-Awake (some (returned Poll.pending, s, w)) h = h
  as_big-Awake (some (returned (Poll.ready r), s, w)) h = tt

  -- A join does not stall. If a poll is pending, then every future of a small join that still runs
  -- has arranged that the task is woken, whether or not others have failed, and for a big join its
  -- queue has. This holds if a poll of a future, or of the queue, that is pending makes such an
  -- arrangement, and no poll of a future undoes that of another.
  pub poll-Awake :
      (n : ℕ) (k : JoinAllThenTry maybe ordered) (w : W)
      → IfAnyPending Awake (poll maybe ordered n k w)
  unfolding poll
  poll-Awake n (small cs) w =
      let (panics, ss, w1) = poll_all poll_future (views maybe cs) w in
      Joined-Awake panics (all_ready ss) ss w w1 (poll_small maybe cs w)
        (poll_all-Rearms armed poll_future arms (views maybe cs) w) (poll_small-Joined maybe cs w)
  poll-Awake n (big s) w =
      as_big-Awake (Collect.poll ordered.queue vec n s w)
        (poll-IfAnyPending ordered.queue vec served serves n s w)
