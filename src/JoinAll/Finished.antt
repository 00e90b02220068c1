-- ===== src/JoinAll/Finished.antt =====
-- src/future/join_all_then_try.rs: what has become of the futures of a join when a poll is ready.
use cancel_safe_futures.Base.{
  ℕ, suc, ◌<◌, ◌≡◌, refl, ap, ◌∙◌, Bool, Bool-cases, inl, inr, true, false, length, length-map,
  List, [], ◌∷◌, Option, none, some, Result, Poll, Outcome, returned, unwound, arith,
}
use cancel_safe_futures.Stream.Collect.Defs.{CollectThenTry}
use cancel_safe_futures.Stream.Collect.Defs as Collect
use cancel_safe_futures.Stream.Collect.Laws.{Collects, poll-Collects}
use cancel_safe_futures.Future.MaybeDone.{Stage, MaybeDone, views}
use cancel_safe_futures.Future.Round.{poll_all, all_ready}
use cancel_safe_futures.Future.Promise.{Settles}
use cancel_safe_futures.Future.Noted.{OverIfReady}
use cancel_safe_futures.JoinAll.Small.{poll_small}
use cancel_safe_futures.JoinAll.Polling.{Joined, poll_small-Joined}
use cancel_safe_futures.JoinAll.Kinds.{
  FuturesOrdered, vec, JoinAllThenTry, small, big, Answer, as_big, poll, is_small,
  join_all_then_try,
}
use cancel_safe_futures.Stream.Ext.{collect_then_try}
use cancel_safe_futures.JoinAll.Outcomes.{
  new-Intact, queue-IsFinite, IsIntact, backlog, Heads, poll-Heads,
}

abbrev is_empty : {A : Type 0} → List A → Bool
is_empty [] = true
is_empty (x ∷ xs) = false

module _ {W F A E : Type 0} {poll_future : F → W → Outcome (Poll (Result A E)) × F × W}
    (maybe : MaybeDone W F (Result A E) poll_future) (ordered : FuturesOrdered W F A E poll_future)
    (out : F → Result A E) where
  -- Every future of the join has run to its end: in the small kind, a round over all of them from
  -- the world that the poll found leaves none that still runs; in the big kind, the queue that the
  -- poll left has no output to come.
  unfoldable pub all_finished :
      JoinAllThenTry maybe ordered → W → JoinAllThenTry maybe ordered → Bool
  unfolding poll_all
  all_finished (small cs) w k = all_ready (poll_all poll_future (views maybe cs) w).1
  all_finished (big s) w (big s') = is_empty (ordered.rest out s'.stream)
  all_finished (big s) w (small cs) = false

  module _ (settles : (f : F) (w : W) → Settles out f (poll_future f w)) where
    -- No output has been taken, and fuel `m` is enough.
    abbrev pub Fuelled : ℕ → JoinAllThenTry maybe ordered → Type 0
    Fuelled m k = IsIntact maybe ordered out settles k × (backlog maybe ordered out settles k < m)

    Heads-Fuelled :
        (m : ℕ) (k : JoinAllThenTry maybe ordered) (over : JoinAllThenTry maybe ordered → Bool)
        (a : Option (Answer maybe ordered))
        → backlog maybe ordered out settles k < m
        → Heads maybe ordered out settles k a
        → OverIfReady (λ k'. Unit) over a
        → OverIfReady (Fuelled m) over a
    Heads-Fuelled m k over none b h o = tt
    Heads-Fuelled m k over (some (unwound, k', w)) b h o = tt
    Heads-Fuelled m k over (some (returned (Poll.ready r), k', w)) b h o = o
    Heads-Fuelled m k over (some (returned Poll.pending, k', w)) b h o = (h.1, omega (arith, h.2))

    Joined-OverIfReady :
        (panics all : Bool) (ss : List (Stage F (Result A E))) (w1 : W)
        (r : Outcome (Poll (Result (List A) E)) × List maybe.Cell × W)
        → all_ready ss ≡ all
        → Joined maybe panics all ss w1 r
        → OverIfReady
            (λ (k : JoinAllThenTry maybe ordered). Unit)
            (λ k. all_ready ss)
            (some (r.0, small r.1, r.2))
    Joined-OverIfReady panics all ss w1 (unwound, cs, v) e j = tt
    Joined-OverIfReady panics all ss w1 (returned Poll.pending, cs, v) e j = tt
    Joined-OverIfReady true all ss w1 (returned (Poll.ready r), cs, v) e j = cc (j.0)
    Joined-OverIfReady false true ss w1 (returned (Poll.ready r), cs, v) e j = e
    Joined-OverIfReady false false ss w1 (returned (Poll.ready r), cs, v) e j = cc (j.0)

    Collects-OverIfReady :
        (s : CollectThenTry ordered.queue (vec {A = A})) (w : W)
        (a : Option (Collect.Answer ordered.queue (vec {A = A})))
        → Collects ordered.queue vec (queue-IsFinite maybe ordered out settles) s a
        → OverIfReady (λ k. Unit) (all_finished (big s) w) (as_big maybe ordered a)
    unfolding all_finished
    Collects-OverIfReady s w none h = tt
    Collects-OverIfReady s w (some (unwound, s', v)) h = tt
    Collects-OverIfReady s w (some (returned Poll.pending, s', v)) h = tt
    Collects-OverIfReady s w (some (returned (Poll.ready r), s', v)) h = ap is_empty h.1

    poll_ready-all_finished :
        (m : ℕ) (k : JoinAllThenTry maybe ordered) (w : W)
        → backlog maybe ordered out settles k < m
        → OverIfReady (λ k'. Unit) (all_finished k w) (poll maybe ordered m k w)
    unfolding poll all_finished
    poll_ready-all_finished m (small cs) w b =
        let (panics, ss, w1) = poll_all poll_future (views maybe cs) w in
        Joined-OverIfReady panics (all_ready ss) ss w1 (poll_small maybe cs w) refl
          (poll_small-Joined maybe cs w)
    poll_ready-all_finished m (big s) w b =
        Collects-OverIfReady s w (Collect.poll ordered.queue vec m s w)
          (poll-Collects ordered.queue vec (queue-IsFinite maybe ordered out settles) m s w b)

    -- A poll that is ready leaves no future that has not finished.
    pub poll-all_finished :
        (m : ℕ) (k : JoinAllThenTry maybe ordered) (w : W)
        → Fuelled m k
        → OverIfReady (Fuelled m) (all_finished k w) (poll maybe ordered m k w)
    poll-all_finished m k w h =
        Heads-Fuelled m k (all_finished k w) (poll maybe ordered m k w) h.1
          (poll-Heads maybe ordered out settles m k w h.0 h.1) (poll_ready-all_finished m k w h.1)

    pub new-Fuelled :
        (no_atomic_cas : Bool) (upper : Option ℕ) (fs : List F)
        → Fuelled (suc (length fs)) (join_all_then_try maybe ordered no_atomic_cas upper fs)
    unfolding join_all_then_try collect_then_try
    new-Fuelled true upper fs = (new-Intact maybe ordered out settles fs, omega arith)
    new-Fuelled false upper fs = elim (Bool-cases (is_small maybe ordered upper)) [
      | inl few ↦ rw few (new-Intact maybe ordered out settles fs, omega arith)
      | inr many ↦
          let size = ap length (ordered.rest-collect out fs) ∙ length-map out fs in
          rw many (tt, omega (arith, size))
    ]
