-- ===== src/JoinAll/Run.antt =====
-- src/future/join_all_then_try.rs: a join of either kind that is awaited.
use cancel_safe_futures.Base.{
  ◌≤◌, length, ℕ, zero, suc, ◌<◌, ◌≡◌, ◌∙◌, sym, refl, Bool, true, false, List, [], ◌∷◌, map,
  Option, none, some, Bool-cases, inl, inr, length-map, ap, Result, Poll, Outcome, returned,
  unwound, arith,
}
use mathlib.Core.Path.{subst}
use cancel_safe_futures.Future.MaybeDone.{Stage, MaybeDone, views}
use cancel_safe_futures.Future.Round.{poll_all, all_ready, verdict}
use cancel_safe_futures.Future.Promise.{
  poll_all-calm, Settles, Finishes, Due, Due-all_ready, poll_all-Due, AllDue,
}
use cancel_safe_futures.Future.Executor.{Advanced, block_on, block_on_lem}
use cancel_safe_futures.JoinAll.Small.{poll_small}
use cancel_safe_futures.JoinAll.Polling.{Joined, poll_small-Joined}
use cancel_safe_futures.JoinAll.Kinds.{
  FuturesOrdered, JoinAllThenTry, small, big, new_cells, is_small, join_all_then_try, poll, vec,
  Answer, as_big,
}
use cancel_safe_futures.Stream.Defs.{Pauses}
use cancel_safe_futures.Stream.Collect.Defs as Collect
use cancel_safe_futures.Stream.Ext.{collect_then_try}
use cancel_safe_futures.Stream.Collect.Defs.{CollectThenTry}
use cancel_safe_futures.Stream.Collect.Run.{PausedBy, poll-PausedBy}
use cancel_safe_futures.JoinAll.Outcomes.{
  new-Intact, queue-IsFinite, heading, heading-join_all_then_try, IsIntact, backlog, Heads,
  poll-Heads,
}

module _ {W F A E : Type 0} {poll_future : F → W → Outcome (Poll (Result A E)) × F × W}
    (maybe : MaybeDone W F (Result A E) poll_future) (ordered : FuturesOrdered W F A E poll_future)
    (out : F → Result A E) (settles : (f : F) (w : W) → Settles out f (poll_future f w))
    (left : F → ℕ) (finishes : (f : F) (w : W) → Finishes left f (poll_future f w))
    (pauses : ordered.queue.Stream → ℕ)
    (paused : (q : ordered.queue.Stream) (w : W)
      → Pauses pauses (pauses q) (ordered.queue.try_poll_next q w)) where
  -- At most `n` polls are left.
  abbrev Near : ℕ → JoinAllThenTry maybe ordered → Type 0
  Near n (small cs) = (0 < n) × Due left n (views maybe cs)
  Near n (big s) = pauses s.stream < n

  abbrev Nearer : ℕ → Option (Answer maybe ordered) → Type 0
  Nearer n (some (returned Poll.pending, k, w)) = Near n k
  Nearer n _ = Unit

  Joined-Nearer :
      (n : ℕ) (panics all : Bool) (ss : List (Stage F (Result A E))) (w : W)
      (r : Outcome (Poll (Result (List A) E)) × List maybe.Cell × W)
      → panics ≡ false
      → all_ready ss ≡ all
      → Due left n ss
      → Joined maybe panics all ss w r
      → Nearer n (some (r.0, small r.1, r.2))
  Joined-Nearer n true all ss w r q e d j = cc
  Joined-Nearer n false all ss w (returned (Poll.ready r), cs', w') q e d j = tt
  Joined-Nearer n false all ss w (unwound, cs', w') q e d j = tt
  Joined-Nearer n false true ss w (returned Poll.pending, cs', w') q e d j = cc (j.0)
  Joined-Nearer zero false false ss w (returned Poll.pending, cs', w') q e d j =
      let all = Due-all_ready left ss j.3 d in cc
  Joined-Nearer (suc n) false false ss w (returned Poll.pending, cs', w') q e d j =
      (omega arith, subst (Due left (suc n)) (sym j.1) d)

  PausedBy-Nearer :
      (n k : ℕ) (a : Option (Collect.Answer ordered.queue (vec {A = A})))
      → PausedBy ordered.queue vec
          (queue-IsFinite maybe ordered out settles)
          pauses
          paused
          (λ xs x. tt)
          k
          a
      → k < suc n
      → Nearer n (as_big maybe ordered a)
  PausedBy-Nearer n k none p h = tt
  PausedBy-Nearer n k (some (unwound, s, w)) p h = tt
  PausedBy-Nearer n k (some (returned Poll.pending, s, w)) p h = omega arith
  PausedBy-Nearer n k (some (returned (Poll.ready r), s, w)) p h = tt

  poll-Nearer :
      (m n : ℕ) (k : JoinAllThenTry maybe ordered) (w : W)
      → IsIntact maybe ordered out settles k
      → Near (suc n) k
      → Nearer n (poll maybe ordered m k w)
  unfolding poll
  poll-Nearer m n (small cs) w i h =
      let (panics, ss, w1) = poll_all poll_future (views maybe cs) w in
      Joined-Nearer n panics (all_ready ss) ss w1 (poll_small maybe cs w)
        (poll_all-calm poll_future out settles (views maybe cs) w i) refl
        (poll_all-Due poll_future left finishes n (views maybe cs) w i h.1)
        (poll_small-Joined maybe cs w)
  poll-Nearer m n (big s) w i h =
      PausedBy-Nearer n (pauses s.stream) (Collect.poll ordered.queue vec m s w)
        (poll-PausedBy ordered.queue vec (queue-IsFinite maybe ordered out settles) pauses paused
          (λ xs x. tt) m s w)
        h

  -- At most `n` polls are left, fuel `m` serves each, and the result will be `r`.
  record Left (m : ℕ) (r : Result (List A) E) (n : ℕ) (k : JoinAllThenTry maybe ordered)
      : Type 0 where
    intact : IsIntact maybe ordered out settles k
    fuel : backlog maybe ordered out settles k < m
    heads : heading maybe ordered out settles k ≡ r
    near : Near n k

  Heads-Advanced :
      (m : ℕ) (r : Result (List A) E) (n : ℕ) (k : JoinAllThenTry maybe ordered)
      (a : Option (Answer maybe ordered))
      → Left m r (suc n) k
      → Heads maybe ordered out settles k a
      → Nearer n a
      → Advanced r (Left m r) n a
  Heads-Advanced m r n k none l h c = h
  Heads-Advanced m r n k (some (unwound, k', w)) l h c = h
  Heads-Advanced m r n k (some (returned (Poll.ready x), k', w)) l h c = h ∙ l.heads
  Heads-Advanced m r n k (some (returned Poll.pending, k', w)) l h c = record {
    intact = h.1;
    fuel = omega (arith, h.2, l.fuel);
    heads = h.0 ∙ l.heads;
    near = c;
  }

  Near-zero : (k : JoinAllThenTry maybe ordered) → Near 0 k → ⊥
  Near-zero (small cs) h = absurd (omega arith)
  Near-zero (big s) h = absurd (omega arith)

  new-Due :
      (n : ℕ) (fs : List F)
      → AllDue left n fs
      → Due left n (views maybe (new_cells maybe ordered fs))
  new-Due n [] d = tt
  new-Due n (f ∷ fs) d = ground (arith, maybe.view-new f, new-Due n fs d.1)

  -- What `join_all_then_try` starts with.
  new-Near :
      (no_atomic_cas : Bool) (upper : Option ℕ) (fs : List F) (n : ℕ)
      → 0 < n
      → AllDue left n fs
      → pauses (ordered.collect fs) < n
      → let k = join_all_then_try maybe ordered no_atomic_cas upper fs in
        Near n k
        × IsIntact maybe ordered out settles k
        × (backlog maybe ordered out settles k ≤ length fs)
  unfolding join_all_then_try collect_then_try
  new-Near true upper fs n h d p =
      ((h, new-Due n fs d), new-Intact maybe ordered out settles fs, omega arith)
  new-Near false upper fs n h d p = elim (Bool-cases (is_small maybe ordered upper)) [
    | inl few ↦ rw few ((h, new-Due n fs d), new-Intact maybe ordered out settles fs, omega arith)
    | inr many ↦
        let size = ap length (ordered.rest-collect out fs) ∙ length-map out fs in
        rw many (p, tt, omega (arith, size))
  ]

  -- The join of a list, of either kind, is ready after at most `n` polls if each of its futures is,
  -- and if the ordered queue of these futures is pending less than `n` times. The result is the
  -- first error in the order of the list, or else all outputs in that order. Fuel above the number
  -- of futures is enough for each poll. The world may change between the polls.
  pub block_on-join_all_then_try :
      (between : W → W) (no_atomic_cas : Bool) (upper : Option ℕ) (fs : List F) (n : ℕ) (w : W)
      → 0 < n
      → AllDue left n fs
      → pauses (ordered.collect fs) < n
      → block_on
          (poll maybe ordered (suc (length fs)))
          between
          n
          (join_all_then_try maybe ordered no_atomic_cas upper fs)
          w
        ≡ some (returned (verdict (map out fs)))
  block_on-join_all_then_try between no_atomic_cas upper fs n w h d p =
      let m : ℕ = suc (length fs) in
      let r = verdict (map out fs) in
      let start = new-Near no_atomic_cas upper fs n h d p in
      block_on_lem r (Left m r) (poll maybe ordered m) between (λ k l. Near-zero k l.near)
        (λ i k v l.
          Heads-Advanced m r i k (poll maybe ordered m k v) l
            (poll-Heads maybe ordered out settles m k v l.intact l.fuel)
            (poll-Nearer m i k v l.intact l.near))
        n (join_all_then_try maybe ordered no_atomic_cas upper fs) w
        (record {
          intact = start.1;
          fuel = omega (arith, start.2);
          heads = heading-join_all_then_try maybe ordered out settles no_atomic_cas upper fs;
          near = start.0;
        })
