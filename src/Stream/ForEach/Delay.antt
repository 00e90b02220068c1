-- ===== src/Stream/ForEach/Delay.antt =====
-- src/stream/for_each_concurrent_then_try.rs: how often the adapter can be pending.
use mathlib.Core.Path.{subst}
use cancel_safe_futures.Base.{
  Outcome, returned, unwound, ℕ, ◌+◌, ◌<◌, ◌≤◌, ◌≡◌, refl, inl, inr, Bool, Bool-cases, true, false,
  Option, none, some, is_some, Result, ok, err, Poll, pending, ready, arith,
}
use cancel_safe_futures.Stream.Defs.{TryStream, IsFinite, Pauses}
use cancel_safe_futures.Stream.ForEach.Defs.{
  FuturesUnordered, Drained, ForEachConcurrentThenTry, has_room, start_future, take_item, poll_some,
  poll_stream, take_result, iterate, poll,
}
use cancel_safe_futures.Stream.ForEach.Laws.{Logged, work}
use cancel_safe_futures.Stream.ForEach.Limit.{IsLimit, full_set}
use cancel_safe_futures.Stream.ForEach.Rule.{Steps, Gives, Half, poll_futures-Steps, poll-Gives}

-- A stream whose answers delay the adapter at most `n` times more: by being pending, by an error,
-- or by the future that is made from an element. It does not panic.
abbrev pub Delayed :
    {S A E W : Type 0}
    → (S → ℕ)
    → (A → ℕ)
    → ℕ
    → Outcome (Poll (Option (Result A E))) × S × W
    → Type 0
Delayed delay cost n (returned pending, s, w) = delay s < n
Delayed delay cost n (returned (ready none), s, w) = Unit
Delayed delay cost n (returned (ready (some (ok a))), s, w) = cost a + delay s ≤ n
Delayed delay cost n (returned (ready (some (err e))), s, w) = delay s < n
Delayed delay cost n (unwound, s, w) = ⊥

-- A closure that does not panic, and whose future raises the lag of the set by `n` at most.
abbrev pub Lags : {Q Fut Fn : Type 0} → (Q → ℕ) → (Fut → Q → Q) → ℕ → Q → Outcome Fut × Fn → Type 0
Lags lag push n q (unwound, f) = ⊥
Lags lag push n q (returned fut, f) = lag (push fut q) ≤ n + lag q

module _ {W A E Fut Fn : Type 0} (st : TryStream W A E)
    (set : FuturesUnordered W Fut (Result (Unit {0}) E)) (call : Fn → A → Outcome Fut × Fn) where
  pub record Delays : Type 0 where
    pub delay : st.Stream → ℕ
    pub cost : A → ℕ
    -- how often the set will be pending
    pub lag : set.Queue → ℕ
    pub stream_law : (x : st.Stream) (w : W) → Delayed delay cost (delay x) (st.try_poll_next x w)
    pub set_law : (q : set.Queue) (w : W) → Pauses lag (lag q) (set.poll_next q w)
    pub call_law : (f : Fn) (a : A) (q : set.Queue) → Lags lag set.push (cost a) q (call f a)
    pub lag-empty : lag set.empty ≡ 0

  module _ (d : Delays) where
    abbrev pub delay_of : Option st.Stream → ℕ
    delay_of none = 0
    delay_of (some x) = d.delay x

    -- How often a poll will be pending, at most.
    abbrev pub delays : ForEachConcurrentThenTry st set call → ℕ
    delays s = delay_of s.stream + d.lag s.futures

    module _ (k : ℕ) where
      abbrev pub Before : ForEachConcurrentThenTry st set call → W → Type 0
      Before s w = IsLimit s.limit × (delays s ≤ k)

      abbrev pub After :
          Outcome (Poll (Result (Unit {0}) E)) → ForEachConcurrentThenTry st set call → W → Type 0
      After (returned pending) s w = IsLimit s.limit × (delays s < k)
      After (returned (ready r)) s w = Unit
      After unwound s w = ⊥

      -- After the first half of an iteration.
      abbrev Halfway : Bool → ForEachConcurrentThenTry st set call → W → Type 0
      Halfway made s w =
          IsLimit s.limit
          × (delays s ≤ k)
          × (made ≡ false → is_some s.stream ≡ true → set.len s.futures ≡ 0 → delays s < k)

      abbrev HalfDelayed : Outcome Bool × ForEachConcurrentThenTry st set call × W → Type 0
      HalfDelayed r = Half st set call Before After Halfway r

      start_future-Half :
          (s : ForEachConcurrentThenTry st set call) (n : ℕ) (r : Outcome Fut × Fn) (w : W)
          → IsLimit s.limit
          → delay_of s.stream + n + d.lag s.futures ≤ k
          → Lags d.lag set.push n s.futures r
          → HalfDelayed (start_future st set call s r w)
      unfolding start_future
      start_future-Half s n (unwound, f) w l h p = absurd p
      start_future-Half s n (returned fut, f) w l h p = (l, omega arith, λ i. cc)

      take_item-Half :
          (s : ForEachConcurrentThenTry st set call) (n : ℕ)
          (r : Outcome (Poll (Option (Result A E))) × st.Stream × W)
          → IsLimit s.limit
          → n + d.lag s.futures ≤ k
          → Delayed d.delay d.cost n r
          → HalfDelayed (take_item st set call s r)
      unfolding take_item
      take_item-Half s n (returned pending, x, w) l h p = (l, omega arith, λ i j e. omega arith)
      take_item-Half s n (returned (ready none), x, w) l h p = (l, omega arith, λ i j. cc)
      take_item-Half s n (returned (ready (some (ok a))), x, w) l h p =
          start_future-Half (record s { stream = some x }) (d.cost a) (call s.f a) w l (omega arith)
            (d.call_law s.f a s.futures)
      take_item-Half s n (unwound, x, w) l h p = absurd p
      take_item-Half s n (returned (ready (some (err e))), x, w) l h p =
          (l, omega arith, λ i j e. omega arith)

      poll_some-Half :
          (s : ForEachConcurrentThenTry st set call) (o : Option st.Stream) (w : W)
          → s.stream ≡ o
          → Before s w
          → HalfDelayed (poll_some st set call s o w)
      poll_some-Half s none w e h = (h.0, h.1, λ m i. cc)
      poll_some-Half s (some x) w e h =
          take_item-Half s (d.delay x) (st.try_poll_next x w) h.0
            (subst (λ o. delay_of o + d.lag s.futures ≤ k) e h.1) (d.stream_law x w)

      poll_stream-Half :
          (s : ForEachConcurrentThenTry st set call) (w : W)
          → Before s w
          → HalfDelayed (poll_stream st set call s w)
      unfolding poll_stream
      poll_stream-Half s w h = elim (Bool-cases (has_room s.limit (set.len s.futures))) [
        | inl room ↦ rw room (poll_some-Half s s.stream w refl h)
        | inr full ↦
            rw full (h.0, h.1, λ m i e. absurd (full_set s.limit (set.len s.futures) h.0 full e))
      ]

      take_result-Steps :
          (made : Bool) (s : ForEachConcurrentThenTry st set call) (w : W)
          (r : Outcome (Poll (Option (Result (Unit {0}) E))) × set.Queue × W)
          → Halfway made s w
          → Drained set.len (set.len s.futures) r
          → Pauses d.lag (d.lag s.futures) r
          → Steps st set call Before After (take_result st set call made s r)
      unfolding take_result
      take_result-Steps made s w (unwound, q, w') h e p = absurd p
      take_result-Steps true s w (returned pending, q, w') h e p = (h.0, omega (arith, h.1))
      take_result-Steps false s w (returned pending, q, w') h e p = (h.0, omega (arith, h.1))
      take_result-Steps made s w (returned (ready (some (ok u))), q, w') h e p =
          (h.0, omega (arith, h.1))
      take_result-Steps made s w (returned (ready (some (err x))), q, w') h e p =
          (h.0, omega (arith, h.1))
      take_result-Steps true s w (returned (ready none), q, w') h e p =
          elim (Bool-cases (is_some s.stream)) [
            | inl more ↦ rw more (h.0, omega (arith, h.1))
            | inr over ↦ rw over tt
          ]
      take_result-Steps false s w (returned (ready none), q, w') h e p =
          elim (Bool-cases (is_some s.stream)) [
            | inl more ↦ let less = h.2 refl more e.0 in rw more (h.0, omega (arith, less))
            | inr over ↦ rw over tt
          ]

      iterate-Steps :
          (s : ForEachConcurrentThenTry st set call) (w : W)
          → Before s w
          → Steps st set call Before After (iterate st set call s w)
      unfolding iterate
      iterate-Steps s w h =
          poll_futures-Steps st set call Before After Halfway
            (λ made s1 w1 h1.
              take_result-Steps made s1 w1 (set.poll_next s1.futures w1) h1
                (set.poll_next_law s1.futures w1) (d.set_law s1.futures w1))
            (poll_stream st set call s w) (poll_stream-Half s w h)

      pub poll-Delay :
          (fin : IsFinite st) (log : Logged call) (n : ℕ) (s : ForEachConcurrentThenTry st set call)
          (w : W)
          → work st set call fin log s < n
          → Before s w
          → Gives st set call Before After (poll st set call n s w)
      poll-Delay fin log n s w few h =
          poll-Gives st set call Before After iterate-Steps fin log n s w few h
