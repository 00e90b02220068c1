-- ===== src/Stream/ForEach/Stalls.antt =====
-- src/stream/for_each_concurrent_then_try.rs: the only way in which a poll that is pending arranges
-- for no wake-up.
use cancel_safe_futures.Base.{
  ℕ, ◌<◌, ◌≡◌, refl, ◌⊎◌, inl, inr, Bool, Bool-cases, true, false, Option, none, some, is_some,
  Result, ok, err, Poll, pending, ready, Outcome, returned, unwound,
}
use cancel_safe_futures.Stream.Defs.{TryStream, IsFinite, keep_first}
use cancel_safe_futures.Stream.ForEach.Defs.{
  FuturesUnordered, Drained, ForEachConcurrentThenTry, has_room, start_future, take_item, poll_some,
  poll_stream, take_result, iterate, poll,
}
use cancel_safe_futures.Stream.ForEach.Laws.{Logged, work}
use cancel_safe_futures.Stream.ForEach.Limit.{IsLimit, full_set}
use cancel_safe_futures.Stream.ForEach.Wake.{Arranges, Wakes}
use cancel_safe_futures.Stream.ForEach.Rule.{Steps, Gives, Half, poll_futures-Steps, poll-Gives}

keep_first-is_some : {E : Type 0} (found : Option E) (e : E) → is_some (keep_first found e) ≡ true
keep_first-is_some none e = refl
keep_first-is_some (some d) e = refl

module _ {W A E Fut Fn : Type 0} (st : TryStream W A E)
    (set : FuturesUnordered W Fut (Result (Unit {0}) E)) (call : Fn → A → Outcome Fut × Fn)
    (fin : IsFinite st) (log : Logged call) (wakes : Wakes st set call fin log) where
  abbrev pub HasLimit : ForEachConcurrentThenTry st set call → W → Type 0
  HasLimit s w = IsLimit s.limit

  -- An error has been found, the stream has not ended, and no future is left to run.
  abbrev pub Stalled : ForEachConcurrentThenTry st set call → Type 0
  Stalled s = (is_some s.first_error ≡ true) × (is_some s.stream ≡ true) × (set.len s.futures ≡ 0)

  abbrev pub WokenOrStalled :
      Outcome (Poll (Result (Unit {0}) E)) → ForEachConcurrentThenTry st set call → W → Type 0
  WokenOrStalled (returned pending) s w = (wakes.will_wake w ≡ true) ⊎ Stalled s
  WokenOrStalled (returned (ready r)) s w = Unit
  WokenOrStalled unwound s w = Unit

  -- After the first half of an iteration.
  abbrev Halfway : Bool → ForEachConcurrentThenTry st set call → W → Type 0
  Halfway made s w =
      IsLimit s.limit
      × (made ≡ false
          → is_some s.stream ≡ true
          → set.len s.futures ≡ 0
          → (wakes.will_wake w ≡ true) ⊎ (is_some s.first_error ≡ true))

  abbrev FirstHalf : Outcome Bool × ForEachConcurrentThenTry st set call × W → Type 0
  FirstHalf r = Half st set call HasLimit WokenOrStalled Halfway r

  start_future-FirstHalf :
      (s : ForEachConcurrentThenTry st set call) (r : Outcome Fut × Fn) (w : W)
      → IsLimit s.limit
      → FirstHalf (start_future st set call s r w)
  unfolding start_future
  start_future-FirstHalf s (unwound, f) w l = tt
  start_future-FirstHalf s (returned fut, f) w l = (l, λ i. cc)

  take_item-FirstHalf :
      (s : ForEachConcurrentThenTry st set call) (before : Bool)
      (r : Outcome (Poll (Option (Result A E))) × st.Stream × W)
      → IsLimit s.limit
      → Arranges wakes.will_wake before r
      → FirstHalf (take_item st set call s r)
  unfolding take_item
  take_item-FirstHalf s before (unwound, x, w) l a = tt
  take_item-FirstHalf s before (returned pending, x, w) l a = (l, λ m i e. inl a)
  take_item-FirstHalf s before (returned (ready none), x, w) l a = (l, λ m i. cc)
  take_item-FirstHalf s before (returned (ready (some (ok v))), x, w) l a =
      start_future-FirstHalf (record s { stream = some x }) (call s.f v) w l
  take_item-FirstHalf s before (returned (ready (some (err e))), x, w) l a =
      (l, λ m i n. inr (keep_first-is_some s.first_error e))

  poll_some-FirstHalf :
      (s : ForEachConcurrentThenTry st set call) (o : Option st.Stream) (w : W)
      → s.stream ≡ o
      → IsLimit s.limit
      → FirstHalf (poll_some st set call s o w)
  poll_some-FirstHalf s none w e l = (l, λ m i. cc)
  poll_some-FirstHalf s (some x) w e l =
      take_item-FirstHalf s (wakes.will_wake w) (st.try_poll_next x w) l (wakes.stream_law x w)

  poll_stream-FirstHalf :
      (s : ForEachConcurrentThenTry st set call) (w : W)
      → IsLimit s.limit
      → FirstHalf (poll_stream st set call s w)
  unfolding poll_stream
  poll_stream-FirstHalf s w l = elim (Bool-cases (has_room s.limit (set.len s.futures))) [
    | inl room ↦ rw room (poll_some-FirstHalf s s.stream w refl l)
    | inr full ↦ rw full (l, λ m i e. absurd (full_set s.limit (set.len s.futures) l full e))
  ]

  -- The set of futures was empty, after no progress.
  empty_set :
      (s : ForEachConcurrentThenTry st set call) (q : set.Queue) (w w' : W)
      → (wakes.will_wake w ≡ true) ⊎ (is_some s.first_error ≡ true)
      → (wakes.will_wake w ≡ true → wakes.will_wake w' ≡ true)
      → is_some s.stream ≡ true
      → set.len q ≡ 0
      → WokenOrStalled (returned pending) (record s { futures = q }) w'
  empty_set s q w w' (inl woken) a more e = inl (a woken)
  empty_set s q w w' (inr found) a more e = inr (found, more, e)

  take_result-Steps :
      (made : Bool) (s : ForEachConcurrentThenTry st set call) (w : W)
      (r : Outcome (Poll (Option (Result (Unit {0}) E))) × set.Queue × W)
      → Halfway made s w
      → Drained set.len (set.len s.futures) r
      → Arranges wakes.will_wake (wakes.will_wake w) r
      → Steps st set call HasLimit WokenOrStalled (take_result st set call made s r)
  unfolding take_result
  take_result-Steps made s w (unwound, q, w') h d a = tt
  take_result-Steps true s w (returned pending, q, w') h d a = h.0
  take_result-Steps false s w (returned pending, q, w') h d a = inl a
  take_result-Steps made s w (returned (ready (some (ok u))), q, w') h d a = h.0
  take_result-Steps made s w (returned (ready (some (err e))), q, w') h d a = h.0
  take_result-Steps true s w (returned (ready none), q, w') h d a =
      elim (Bool-cases (is_some s.stream)) [ inl more ↦ rw more h.0 | inr over ↦ rw over tt ]
  take_result-Steps false s w (returned (ready none), q, w') h d a =
      elim (Bool-cases (is_some s.stream)) [
        | inl more ↦ let end = empty_set s q w w' (h.1 refl more d.0) a more d.1 in rw more end
        | inr over ↦ rw over tt
      ]

  iterate-Steps :
      (s : ForEachConcurrentThenTry st set call) (w : W)
      → IsLimit s.limit
      → Steps st set call HasLimit WokenOrStalled (iterate st set call s w)
  unfolding iterate
  iterate-Steps s w l =
      poll_futures-Steps st set call HasLimit WokenOrStalled Halfway
        (λ made s1 w1 h1.
          take_result-Steps made s1 w1 (set.poll_next s1.futures w1) h1
            (set.poll_next_law s1.futures w1) (wakes.set_law s1.futures w1))
        (poll_stream st set call s w) (poll_stream-FirstHalf s w l)

  -- With a limit that is not 0, on any stream with finitely many items, a poll ends, with fuel
  -- above the work that is left; and if it is pending, then the task will be woken, or an error has
  -- been found while no future is left to run and the stream has not ended. This holds if polls
  -- that are pending arrange for a wake-up and those that are ready undo none.
  pub poll-WokenOrStalled :
      (n : ℕ) (s : ForEachConcurrentThenTry st set call) (w : W)
      → IsLimit s.limit
      → work st set call fin log s < n
      → Gives st set call HasLimit WokenOrStalled (poll st set call n s w)
  poll-WokenOrStalled n s w l few =
      poll-Gives st set call HasLimit WokenOrStalled iterate-Steps fin log n s w few l
