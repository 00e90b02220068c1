-- ===== src/Stream/ForEach/Iteration.antt =====
-- One iteration of the loop of `ForEachConcurrentThenTry::poll`.
use cancel_safe_futures.Base.{
  Outcome, returned, unwound, ◌≡◌, refl, inl, inr, Bool, Bool-cases, true, false, [], ◌∷◌,
  append_assoc, Option, none, some, Result, ok, err, Poll, pending, ready, arith,
}
use cancel_safe_futures.Stream.Defs.{TryStream, Follows, IsFinite, oks}
use cancel_safe_futures.Stream.ForEach.Defs.{
  FuturesUnordered, Drained, has_room, start_future, take_item, poll_stream, poll_some, Iteration,
  finished, progress, take_result, poll_futures, iterate,
}
use cancel_safe_futures.Stream.ForEach.Laws.{Logged, State, elements, Kept, Within, made_progress}

module _ {W A E Fut Fn : Type 0} (st : TryStream W A E)
    (set : FuturesUnordered W Fut (Result (Unit {0}) E)) (call : Fn → A → Outcome Fut × Fn)
    (fin : IsFinite st) (log : Logged call) where
  take_item_lem :
      (s : State st set call fin log) (x : st.Stream)
      (r : Outcome (Poll (Option (Result A E))) × st.Stream × W)
      → s.stream ≡ some x
      → Follows st fin.rest (fin.rest x) r
      → let (out, s', w) = take_item st set call s r in
        Kept st set call fin log (made_progress out) s s'
  unfolding take_item start_future
  take_item_lem s x (unwound, x', w) e h = ground arith
  take_item_lem s x (returned pending, x', w) e h = ground arith
  take_item_lem s x (returned (ready none), x', w) e h = ground arith
  take_item_lem s x (returned (ready (some (err d))), x', w) e h = ground arith
  take_item_lem s x (returned (ready (some (ok a))), x', w) e h = grind (
    arith,
    log.calls-call s.f a,
    set.len-push,
    append_assoc (log.calls s.f) (a ∷ []) (oks (fin.rest x')),
  )

  poll_some_lem :
      (s : State st set call fin log) (o : Option st.Stream) (w : W)
      → s.stream ≡ o
      → let (out, s', w') = poll_some st set call s o w in
        Kept st set call fin log (made_progress out) s s'
  poll_some_lem s none w e = ground arith
  poll_some_lem s (some x) w e = take_item_lem s x (st.try_poll_next x w) e (fin.follows x w)

  poll_stream_lem :
      (s : State st set call fin log) (w : W)
      → let (out, s', w') = poll_stream st set call s w in
        Kept st set call fin log (made_progress out) s s'
  unfolding poll_stream
  poll_stream_lem s w = elim (Bool-cases (has_room s.limit (set.len s.futures))) [
    | inl room ↦ rw room (poll_some_lem s s.stream w refl)
    | inr full ↦ rw full (ground arith)
  ]

  -- How an iteration can end. If the loop ends there, the stream and the futures have ended, every
  -- element has been handed to the closure, and an error that was at hand is the result.
  abbrev pub Ends : Option E → Result (Unit {0}) E → Type 0
  Ends none r = Unit
  Ends (some e) r = r ≡ err e

  abbrev pub Iterated :
      State st set call fin log
      → Outcome (Iteration st set call) × State st set call fin log × W
      → Type 0
  Iterated s (unwound, s', w) = Kept st set call fin log false s s'
  Iterated s (returned (finished r), s', w) =
      (s'.stream ≡ none)
      × (set.len s'.futures ≡ 0)
      × (elements st set call fin log s' ≡ elements st set call fin log s)
      × Ends s.first_error r
  Iterated s (returned (progress made), s', w) = Kept st set call fin log made s s'

  take_result_lem :
      (made : Bool) (s s1 : State st set call fin log)
      (r : Outcome (Poll (Option (Result (Unit {0}) E))) × set.Queue × W)
      → Kept st set call fin log made s s1
      → Drained set.len (set.len s1.futures) r
      → Iterated s (take_result st set call made s1 r)
  unfolding take_result
  take_result_lem made s s1 (unwound, q, w) k d = ground arith
  take_result_lem made s s1 (returned pending, q, w) k d = ground arith
  take_result_lem made s s1 (returned (ready none), q, w) k d = ground arith
  take_result_lem made s s1 (returned (ready (some (ok u))), q, w) k d = ground arith
  take_result_lem made s s1 (returned (ready (some (err e))), q, w) k d = ground arith

  poll_futures_lem :
      (s : State st set call fin log) (r : Outcome Bool × State st set call fin log × W)
      → Kept st set call fin log (made_progress r.0) s r.1
      → Iterated s (poll_futures st set call r)
  unfolding poll_futures
  poll_futures_lem s (unwound, s1, w) k = k
  poll_futures_lem s (returned made, s1, w) k =
      take_result_lem made s s1 (set.poll_next s1.futures w) k (set.poll_next_law s1.futures w)

  pub iterate_lem : (s : State st set call fin log) (w : W) → Iterated s (iterate st set call s w)
  unfolding iterate
  iterate_lem s w = poll_futures_lem s (poll_stream st set call s w) (poll_stream_lem s w)

  take_item-Within :
      (s : State st set call fin log) (r : Outcome (Poll (Option (Result A E))) × st.Stream × W)
      → has_room s.limit (set.len s.futures) ≡ true
      → let (made, s', w') = take_item st set call s r in Within s'.limit (set.len s'.futures)
  unfolding take_item start_future
  take_item-Within s (unwound, x', w) room = ground arith
  take_item-Within s (returned pending, x', w) room = ground arith
  take_item-Within s (returned (ready none), x', w) room = ground arith
  take_item-Within s (returned (ready (some (err d))), x', w) room = ground arith
  take_item-Within s (returned (ready (some (ok a))), x', w) room = grind (arith, set.len-push)

  poll_some-Within :
      (s : State st set call fin log) (o : Option st.Stream) (w : W)
      → has_room s.limit (set.len s.futures) ≡ true
      → let (made, s', w') = poll_some st set call s o w in Within s'.limit (set.len s'.futures)
  poll_some-Within s none w room = ground arith
  poll_some-Within s (some x) w room = take_item-Within s (st.try_poll_next x w) room

  -- The limit holds at every point of an iteration.
  pub poll_stream-Within :
      (s : State st set call fin log) (w : W)
      → Within s.limit (set.len s.futures)
      → let (made, s', w') = poll_stream st set call s w in Within s'.limit (set.len s'.futures)
  unfolding poll_stream
  poll_stream-Within s w h = elim (Bool-cases (has_room s.limit (set.len s.futures))) [
    | inl room ↦ rw room (poll_some-Within s s.stream w room)
    | inr full ↦ rw full h
  ]

  poll_futures-Within :
      (r : Outcome Bool × State st set call fin log × W)
      → Within r.1.limit (set.len r.1.futures)
      → let (out, s', w') = poll_futures st set call r in Within s'.limit (set.len s'.futures)
  unfolding poll_futures take_result
  poll_futures-Within (unwound, s, w) h = h
  poll_futures-Within (returned made, s, w) h = ground (arith, set.poll_next_law s.futures w)

  pub iterate-Within :
      (s : State st set call fin log) (w : W)
      → Within s.limit (set.len s.futures)
      → let (out, s', w') = iterate st set call s w in Within s'.limit (set.len s'.futures)
  unfolding iterate
  iterate-Within s w h =
      poll_futures-Within (poll_stream st set call s w) (poll_stream-Within s w h)
