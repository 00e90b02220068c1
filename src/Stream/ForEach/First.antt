-- ===== src/Stream/ForEach/First.antt =====
-- src/stream/for_each_concurrent_then_try.rs: which error the adapter returns, when the stream and
-- the futures may all fail.
use cancel_safe_futures.Base.{
  Outcome, returned, unwound, ℕ, ◌<◌, ◌≡◌, refl, sym, ap, ◌∙◌, inl, inr, Bool, Bool-cases, true,
  false, List, [], ◌∷◌, ◌++◌, append-nil, Option, none, some, is_some, Result, ok, err, Poll,
  pending, ready,
}
use cancel_safe_futures.Stream.Defs.{TryStream, IsFinite, keep_first}
use cancel_safe_futures.Stream.ForEach.Defs.{
  FuturesUnordered, ForEachConcurrentThenTry, has_room, start_future, take_item, poll_some,
  poll_stream, take_result, progress, iterate, poll, verdict,
}
use cancel_safe_futures.Stream.ForEach.Laws.{Logged, work}
use cancel_safe_futures.Stream.ForEach.Rule.{Steps, Gives, Half, poll_futures-Steps, poll-Gives}

-- The error in an answer of the stream or of the set of futures.
abbrev pub errors_in : {A E : Type 0} → Outcome (Poll (Option (Result A E))) → List E
errors_in (returned (ready (some (err e)))) = e ∷ []
errors_in _ = []

abbrev pub head? : {E : Type 0} → List E → Option E
head? [] = none
head? (e ∷ es) = some e

head?-append : {E : Type 0} (es : List E) (e : E) → head? (es ++ e ∷ []) ≡ keep_first (head? es) e
head?-append [] e = refl
head?-append (d ∷ es) e = refl

module _ {W A E Fut Fn : Type 0} (st : TryStream W A E)
    (set : FuturesUnordered W Fut (Result (Unit {0}) E)) (call : Fn → A → Outcome Fut × Fn) where
  -- The world remembers the errors that the stream and the futures gave, in order.
  pub record ErrorLog : Type 0 where
    pub errors : W → List E
    pub stream_law :
        (x : st.Stream) (w : W)
        → let (r, x', w') = st.try_poll_next x w in errors w' ≡ errors w ++ errors_in r
    pub set_law :
        (q : set.Queue) (w : W)
        → let (r, q', w') = set.poll_next q w in errors w' ≡ errors w ++ errors_in r

  module _ (log : ErrorLog) where
    abbrev pub Found : ForEachConcurrentThenTry st set call → W → Type 0
    Found s w = s.first_error ≡ head? (log.errors w)

    abbrev pub Returns :
        Outcome (Poll (Result (Unit {0}) E)) → ForEachConcurrentThenTry st set call → W → Type 0
    Returns unwound s w = Found s w
    Returns (returned pending) s w = Found s w
    Returns (returned (ready r)) s w = r ≡ verdict st set call (head? (log.errors w))

    -- An answer without an error, and one with an error.
    same-Found :
        (found : Option E) (old new : List E)
        → found ≡ head? old
        → new ≡ old ++ []
        → found ≡ head? new
    same-Found found old new h e = h ∙ ap head? (sym (e ∙ append-nil old))

    new-Found :
        (found : Option E) (old new : List E) (e : E)
        → found ≡ head? old
        → new ≡ old ++ e ∷ []
        → keep_first found e ≡ head? new
    new-Found found old new e h l =
        ap (λ f. keep_first f e) h ∙ sym (head?-append old e) ∙ ap head? (sym l)

    abbrev HalfFound : Outcome Bool × ForEachConcurrentThenTry st set call × W → Type 0
    HalfFound r = Half st set call Found Returns (λ made. Found) r

    start_future-Found :
        (s : ForEachConcurrentThenTry st set call) (r : Outcome Fut × Fn) (w : W)
        → Found s w
        → HalfFound (start_future st set call s r w)
    unfolding start_future
    start_future-Found s (unwound, f) w h = h
    start_future-Found s (returned fut, f) w h = h

    take_item-Found :
        (s : ForEachConcurrentThenTry st set call) (w : W)
        (r : Outcome (Poll (Option (Result A E))) × st.Stream × W)
        → Found s w
        → log.errors r.2 ≡ log.errors w ++ errors_in r.0
        → HalfFound (take_item st set call s r)
    unfolding take_item
    take_item-Found s w (returned pending, x, w') h l =
        same-Found s.first_error (log.errors w) (log.errors w') h l
    take_item-Found s w (returned (ready none), x, w') h l =
        same-Found s.first_error (log.errors w) (log.errors w') h l
    take_item-Found s w (returned (ready (some (ok a))), x, w') h l =
        start_future-Found (record s { stream = some x }) (call s.f a) w'
          (same-Found s.first_error (log.errors w) (log.errors w') h l)
    take_item-Found s w (unwound, x, w') h l =
        same-Found s.first_error (log.errors w) (log.errors w') h l
    take_item-Found s w (returned (ready (some (err e))), x, w') h l =
        new-Found s.first_error (log.errors w) (log.errors w') e h l

    poll_some-Found :
        (s : ForEachConcurrentThenTry st set call) (o : Option st.Stream) (w : W)
        → Found s w
        → HalfFound (poll_some st set call s o w)
    poll_some-Found s none w h = h
    poll_some-Found s (some x) w h =
        take_item-Found s w (st.try_poll_next x w) h (log.stream_law x w)

    poll_stream-Found :
        (s : ForEachConcurrentThenTry st set call) (w : W)
        → Found s w
        → HalfFound (poll_stream st set call s w)
    unfolding poll_stream
    poll_stream-Found s w h = elim (Bool-cases (has_room s.limit (set.len s.futures))) [
      | inl room ↦ rw room (poll_some-Found s s.stream w h)
      | inr full ↦ rw full h
    ]

    going_on :
        (made : Bool) (s : ForEachConcurrentThenTry st set call) (w : W)
        → Found s w
        → Steps st set call Found Returns (returned (progress made), s, w)
    going_on true s w h = h
    going_on false s w h = h

    take_result-Steps :
        (made : Bool) (s : ForEachConcurrentThenTry st set call) (w : W)
        (r : Outcome (Poll (Option (Result (Unit {0}) E))) × set.Queue × W)
        → Found s w
        → log.errors r.2 ≡ log.errors w ++ errors_in r.0
        → Steps st set call Found Returns (take_result st set call made s r)
    unfolding take_result
    take_result-Steps made s w (unwound, q, w') h l =
        same-Found s.first_error (log.errors w) (log.errors w') h l
    take_result-Steps true s w (returned pending, q, w') h l =
        same-Found s.first_error (log.errors w) (log.errors w') h l
    take_result-Steps false s w (returned pending, q, w') h l =
        same-Found s.first_error (log.errors w) (log.errors w') h l
    take_result-Steps made s w (returned (ready (some (ok u))), q, w') h l =
        same-Found s.first_error (log.errors w) (log.errors w') h l
    take_result-Steps made s w (returned (ready (some (err e))), q, w') h l =
        new-Found s.first_error (log.errors w) (log.errors w') e h l
    take_result-Steps made s w (returned (ready none), q, w') h l =
        let found = same-Found s.first_error (log.errors w) (log.errors w') h l in
        elim (Bool-cases (is_some s.stream)) [
          | inl more ↦ rw more (going_on made (record s { futures = q }) w' found)
          | inr over ↦ rw over (ap (verdict st set call) found)
        ]

    iterate-Steps :
        (s : ForEachConcurrentThenTry st set call) (w : W)
        → Found s w
        → Steps st set call Found Returns (iterate st set call s w)
    unfolding iterate
    iterate-Steps s w h =
        poll_futures-Steps st set call Found Returns (λ made. Found)
          (λ made s1 w1 h1.
            take_result-Steps made s1 w1 (set.poll_next s1.futures w1) h1
              (log.set_law s1.futures w1))
          (poll_stream st set call s w) (poll_stream-Found s w h)

    -- The result is the first error that occurred, in the order in which the stream and the futures
    -- gave them, or a success if none occurred. This holds from a state whose error at hand is the
    -- first that occurred; a poll that is pending, or that a panic ends, leaves such a state.
    pub poll-Returns :
        (fin : IsFinite st) (calls : Logged call) (n : ℕ) (s : ForEachConcurrentThenTry st set call)
        (w : W)
        → work st set call fin calls s < n
        → Found s w
        → Gives st set call Found Returns (poll st set call n s w)
    poll-Returns fin calls n s w few h =
        poll-Gives st set call Found Returns iterate-Steps fin calls n s w few h
