-- ===== src/JoinAll/Woken.antt =====
-- src/future/join_all_then_try.rs: a join of either kind that is awaited by a task that is polled
-- only when it was woken.
use cancel_safe_futures.Base.{
  ℕ, suc, ◌<◌, ◌≡◌, ◌∙◌, refl, ap, Bool, true, false, List, map, length, Option, none, some, Result,
  Poll, Outcome, returned, unwound,
}
use cancel_safe_futures.Stream.Defs.{Pauses}
use cancel_safe_futures.Stream.Collect.Defs as Collect
use cancel_safe_futures.Stream.Collect.Waking.{OfStream, poll-IfAnyPending}
use cancel_safe_futures.Future.MaybeDone.{Stage, MaybeDone, views}
use cancel_safe_futures.Future.Round.{poll_all, all_ready, verdict}
use cancel_safe_futures.Future.Promise.{Settles, Finishes, AllDue}
use cancel_safe_futures.Future.Waking.{IfPending, IfAnyPending, Arms, Rearms, poll_all-Rearms}
use cancel_safe_futures.Future.Woken.{
  Woken, AllArmed-Woken, Calls, block_on_woken, block_on_woken-block_on,
}
use cancel_safe_futures.JoinAll.Small.{poll_small}
use cancel_safe_futures.JoinAll.Polling.{Joined, poll_small-Joined}
use cancel_safe_futures.JoinAll.Kinds.{
  FuturesOrdered, vec, JoinAllThenTry, small, big, join_all_then_try, as_big, poll,
}
use cancel_safe_futures.Future.Noted.{noting, block_on_woken-noting}
use cancel_safe_futures.JoinAll.Finished.{all_finished, Fuelled, poll-all_finished, new-Fuelled}
use cancel_safe_futures.JoinAll.Run.{block_on-join_all_then_try}

module _ {W F A E : Type 0} {poll_future : F → W → Outcome (Poll (Result A E)) × F × W}
    (maybe : MaybeDone W F (Result A E) poll_future) (ordered : FuturesOrdered W F A E poll_future)
    (will_wake : W → Bool) (arms : (f : F) (w : W) → Arms (Woken will_wake) w (poll_future f w))
    (serves : (q : ordered.queue.Stream) (w : W)
      → IfPending (Woken will_wake) (ordered.queue.try_poll_next q w)) where
  Joined-Calls :
      (panics all : Bool) (ss : List (Stage F (Result A E))) (w w1 : W)
      (r : Outcome (Poll (Result (List A) E)) × List maybe.Cell × W)
      → all_ready ss ≡ all
      → Rearms (Woken will_wake) w (panics, ss, w1)
      → Joined maybe panics all ss w1 r
      → Calls will_wake (λ (k : JoinAllThenTry maybe ordered). Unit) (some (r.0, small r.1, r.2))
  Joined-Calls panics all ss w w1 (unwound, cs, v) e a j = tt
  Joined-Calls panics all ss w w1 (returned (Poll.ready r), cs, v) e a j = tt
  Joined-Calls true all ss w w1 (returned Poll.pending, cs, v) e a j = cc (j.0)
  Joined-Calls false true ss w w1 (returned Poll.pending, cs, v) e a j = cc (j.0)
  Joined-Calls false false ss w w1 (returned Poll.pending, cs, v) e a j =
      (ap will_wake j.2 ∙ AllArmed-Woken will_wake ss w1 j.3 e a.0, tt)

  as_big-Calls :
      (a : Option (Collect.Answer ordered.queue (vec {A = A})))
      → IfAnyPending (OfStream ordered.queue vec (Woken will_wake) serves) a
      → Calls will_wake (λ (k : JoinAllThenTry maybe ordered). Unit) (as_big maybe ordered a)
  as_big-Calls none h = tt
  as_big-Calls (some (unwound, s, w)) h = tt
  as_big-Calls (some (returned Poll.pending, s, w)) h = (h, tt)
  as_big-Calls (some (returned (Poll.ready r), s, w)) h = tt

  poll-Calls :
      (n : ℕ) (k : JoinAllThenTry maybe ordered) (w : W)
      → Calls will_wake (λ (k : JoinAllThenTry maybe ordered). Unit) (poll maybe ordered n k w)
  unfolding poll
  poll-Calls n (small cs) w =
      let (panics, ss, w1) = poll_all poll_future (views maybe cs) w in
      Joined-Calls panics (all_ready ss) ss w w1 (poll_small maybe cs w) refl
        (poll_all-Rearms (Woken will_wake) poll_future arms (views maybe cs) w)
        (poll_small-Joined maybe cs w)
  poll-Calls n (big s) w =
      as_big-Calls (Collect.poll ordered.queue vec n s w)
        (poll-IfAnyPending ordered.queue vec (Woken will_wake) serves n s w)

  -- The join of a list, of either kind, is ready after at most `n` polls under an executor that
  -- polls the task again only when it was woken, if each of its futures is, and if the ordered
  -- queue of these futures is pending less than `n` times. The result is the first error in the
  -- order of the list, or else all outputs in that order. The futures run concurrently, and none is
  -- dropped when another fails: the poll that is ready leaves no future that has not finished. In
  -- the small kind, a round over all futures that still ran before that poll finishes them; in the
  -- big kind, the queue has no output to come after it. All this holds if no future panics, the
  -- output of each does not depend on when it is polled, a poll of a future, or of the queue, that
  -- is pending arranges a wake-up, and no poll of a future undoes one. Fuel above the number of
  -- futures is enough for each poll. The world may change between the polls.
  pub block_on_woken-join_all_then_try :
      (out : F → Result A E)
      → ((f : F) (w : W) → Settles out f (poll_future f w))
      → (left : F → ℕ) → ((f : F) (w : W) → Finishes left f (poll_future f w))
      → (pauses : ordered.queue.Stream → ℕ)
      → ((q : ordered.queue.Stream) (w : W)
          → Pauses pauses (pauses q) (ordered.queue.try_poll_next q w))
      → (between : W → W) (no_atomic_cas : Bool) (upper : Option ℕ) (fs : List F) (n : ℕ) (w : W)
      → 0 < n
      → AllDue left n fs
      → pauses (ordered.collect fs) < n
      → block_on_woken will_wake
          (noting (all_finished maybe ordered out) (poll maybe ordered (suc (length fs))))
          between
          n
          (join_all_then_try maybe ordered no_atomic_cas upper fs)
          w
        ≡ some (returned (verdict (map out fs), true))
  block_on_woken-join_all_then_try out settles left finishes pauses paused between no_atomic_cas
        upper fs n w h d p =
      let m : ℕ = suc (length fs) in
      let k = join_all_then_try maybe ordered no_atomic_cas upper fs in
      block_on_woken-noting will_wake (Fuelled maybe ordered out settles m) (verdict (map out fs))
        (all_finished maybe ordered out) (poll maybe ordered m) between
        (poll-all_finished maybe ordered out settles m) n k w
        (new-Fuelled maybe ordered out settles no_atomic_cas upper fs)
        (block_on_woken-block_on will_wake (λ k. Unit) (poll maybe ordered m) between
            (λ k v i. poll-Calls m k v) n k w tt
          ∙ block_on-join_all_then_try maybe ordered out settles left finishes pauses paused between
              no_atomic_cas upper fs n w h d p)
