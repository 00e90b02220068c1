-- ===== src/Stream/ForEach/Wake.antt =====
-- src/stream/for_each_concurrent_then_try.rs: which poll arranges for the task to be woken when the
-- adapter answers `Pending`.
use mathlib.Core.Path.{subst}
use cancel_safe_futures.Base.{
  Outcome, returned, unwound, sym, ℕ, ◌<◌, ◌≡◌, refl, inl, inr, Bool, Bool-cases, true, false, List,
  [], ◌∷◌, Option, none, some, is_some, Result, ok, err, Poll, pending, ready,
}
use cancel_safe_futures.Stream.Defs.{TryStream, Follows, IsFinite}
use cancel_safe_futures.Stream.ForEach.Defs.{
  FuturesUnordered, Drained, ForEachConcurrentThenTry, has_room, start_future, take_item, poll_some,
  poll_stream, take_result, iterate, poll,
}
use cancel_safe_futures.Stream.ForEach.Laws.{Logged, remaining, work}
use cancel_safe_futures.Stream.ForEach.Limit.{IsLimit, full_set}
use cancel_safe_futures.Stream.ForEach.Rule.{Steps, Gives, Half, poll_futures-Steps, poll-Gives}

-- The contract of polls: one that is pending has arranged for the task to be woken, and one that is
-- ready undoes no such arrangement.
abbrev pub Arranges : {R Q W : Type 0} → (W → Bool) → Bool → Outcome (Poll R) × Q × W → Type 0
Arranges will_wake before (returned pending, q, w) = will_wake w ≡ true
Arranges will_wake before (returned (ready r), q, w) = before ≡ true → will_wake w ≡ true
Arranges will_wake before (unwound, q, w) = Unit

-- No error is to come.
abbrev pub IsClean : {A E : Type 0} → List (Result A E) → Type 0
IsClean [] = Unit
IsClean (ok a ∷ items) = IsClean items
IsClean (err e ∷ items) = ⊥

module _ {W A E Fut Fn : Type 0} (st : TryStream W A E)
    (set : FuturesUnordered W Fut (Result (Unit {0}) E)) (call : Fn → A → Outcome Fut × Fn)
    (fin : IsFinite st) (log : Logged call) where
  pub record Wakes : Type 0 where
    pub will_wake : W → Bool
    pub stream_law :
        (x : st.Stream) (w : W) → Arranges will_wake (will_wake w) (st.try_poll_next x w)
    pub set_law : (q : set.Queue) (w : W) → Arranges will_wake (will_wake w) (set.poll_next q w)

  module _ (wakes : Wakes) where
    abbrev pub Ready : ForEachConcurrentThenTry st set call → W → Type 0
    Ready s w = IsLimit s.limit × IsClean (remaining st set call fin log s.stream)

    abbrev pub WakesUp :
        Outcome (Poll (Result (Unit {0}) E)) → ForEachConcurrentThenTry st set call → W → Type 0
    WakesUp (returned pending) s w = (wakes.will_wake w ≡ true) × Ready s w
    WakesUp (returned (ready r)) s w = Unit
    WakesUp unwound s w = Unit

    -- After the first half of an iteration.
    abbrev Halfway : Bool → ForEachConcurrentThenTry st set call → W → Type 0
    Halfway made s w =
        IsLimit s.limit
        × IsClean (remaining st set call fin log s.stream)
        × (made ≡ false
            → is_some s.stream ≡ true
            → set.len s.futures ≡ 0
            → wakes.will_wake w ≡ true)

    abbrev HalfWoken : Outcome Bool × ForEachConcurrentThenTry st set call × W → Type 0
    HalfWoken r = Half st set call Ready WakesUp Halfway r

    start_future-Half :
        (s : ForEachConcurrentThenTry st set call) (r : Outcome Fut × Fn) (w : W)
        → Ready s w
        → HalfWoken (start_future st set call s r w)
    unfolding start_future
    start_future-Half s (unwound, f) w h = tt
    start_future-Half s (returned fut, f) w h = (h.0, h.1, λ i. cc)

    take_item-Half :
        (s : ForEachConcurrentThenTry st set call) (items : List (Result A E)) (before : Bool)
        (r : Outcome (Poll (Option (Result A E))) × st.Stream × W)
        → IsLimit s.limit
        → IsClean items
        → Follows st fin.rest items r
        → Arranges wakes.will_wake before r
        → HalfWoken (take_item st set call s r)
    unfolding take_item
    take_item-Half s items before (returned pending, x, w) l c f a =
        (l, subst IsClean (sym f) c, λ h i j. a)
    take_item-Half s items before (returned (ready none), x, w) l c f a = (l, tt, λ h i. cc)
    take_item-Half s items before (returned (ready (some (ok v))), x, w) l c f a =
        start_future-Half (record s { stream = some x }) (call s.f v) w (l, subst IsClean f c)
    take_item-Half s items before (unwound, x, w) l c f a = tt
    take_item-Half s items before (returned (ready (some (err e))), x, w) l c f a =
        absurd (subst IsClean f c)

    poll_some-Half :
        (s : ForEachConcurrentThenTry st set call) (o : Option st.Stream) (w : W)
        → s.stream ≡ o
        → Ready s w
        → HalfWoken (poll_some st set call s o w)
    poll_some-Half s none w e h = (h.0, h.1, λ m i. cc)
    poll_some-Half s (some x) w e h =
        take_item-Half s (fin.rest x) (wakes.will_wake w) (st.try_poll_next x w) h.0
          (subst (λ o. IsClean (remaining st set call fin log o)) e h.1) (fin.follows x w)
          (wakes.stream_law x w)

    poll_stream-Half :
        (s : ForEachConcurrentThenTry st set call) (w : W)
        → Ready s w
        → HalfWoken (poll_stream st set call s w)
    unfolding poll_stream
    poll_stream-Half s w h = elim (Bool-cases (has_room s.limit (set.len s.futures))) [
      | inl room ↦ rw room (poll_some-Half s s.stream w refl h)
      | inr full ↦
          rw full (h.0, h.1, λ m i e. absurd (full_set s.limit (set.len s.futures) h.0 full e))
    ]

    take_result-Steps :
        (made : Bool) (s : ForEachConcurrentThenTry st set call) (w : W)
        (r : Outcome (Poll (Option (Result (Unit {0}) E))) × set.Queue × W)
        → Halfway made s w
        → Drained set.len (set.len s.futures) r
        → Arranges wakes.will_wake (wakes.will_wake w) r
        → Steps st set call Ready WakesUp (take_result st set call made s r)
    unfolding take_result
    take_result-Steps made s w (unwound, q, w') h d a = tt
    take_result-Steps true s w (returned pending, q, w') h d a = (h.0, h.1)
    take_result-Steps false s w (returned pending, q, w') h d a = (a, (h.0, h.1))
    take_result-Steps made s w (returned (ready (some (ok u))), q, w') h d a = (h.0, h.1)
    take_result-Steps made s w (returned (ready (some (err e))), q, w') h d a = (h.0, h.1)
    take_result-Steps true s w (returned (ready none), q, w') h d a =
        elim (Bool-cases (is_some s.stream)) [
          | inl more ↦ rw more (h.0, h.1)
          | inr over ↦ rw over tt
        ]
    take_result-Steps false s w (returned (ready none), q, w') h d a =
        elim (Bool-cases (is_some s.stream)) [
          | inl more ↦ let woken = a (h.2 refl more d.0) in rw more (woken, (h.0, h.1))
          | inr over ↦ rw over tt
        ]

    iterate-Steps :
        (s : ForEachConcurrentThenTry st set call) (w : W)
        → Ready s w
        → Steps st set call Ready WakesUp (iterate st set call s w)
    unfolding iterate
    iterate-Steps s w h =
        poll_futures-Steps st set call Ready WakesUp Halfway
          (λ made s1 w1 h1.
            take_result-Steps made s1 w1 (set.poll_next s1.futures w1) h1
              (set.poll_next_law s1.futures w1) (wakes.set_law s1.futures w1))
          (poll_stream st set call s w) (poll_stream-Half s w h)

    -- On a stream that yields no error, and with a limit that is not 0, a poll never stalls: it
    -- ends when the fuel exceeds the work that is left, and if it is pending, then the task will be
    -- woken, and what is still to come yields no error.
    pub poll-WakesUp :
        (n : ℕ) (s : ForEachConcurrentThenTry st set call) (w : W)
        → IsLimit s.limit
        → IsClean (remaining st set call fin log s.stream)
        → work st set call fin log s < n
        → Gives st set call Ready WakesUp (poll st set call n s w)
    poll-WakesUp n s w l c few =
        poll-Gives st set call Ready WakesUp iterate-Steps fin log n s w few (l, c)
