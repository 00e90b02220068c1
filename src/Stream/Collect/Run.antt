-- ===== src/Stream/Collect/Run.antt =====
-- src/stream/collect_then_try.rs: the adapter that is awaited.
use cancel_safe_futures.Base.{
  Outcome, unwound, ℕ, zero, suc, ◌≤◌, ◌<◌, ◌≡◌, ◌∙◌, refl, length, Option, none, some, Result, ok,
  err, Poll, pending, ready, returned, arith,
}
use cancel_safe_futures.Stream.Defs.{TryStream, IsFinite, Pauses, first_err, verdict_of}
use cancel_safe_futures.Stream.Collect.Defs.{
  Collection, CollectThenTry, Answer, after_extend, after_item, poll,
}
use cancel_safe_futures.Stream.Collect.Laws.{
  ExtendIsCalm, NeverPanics, verdict, collected, Collects, poll-Collects,
}
use cancel_safe_futures.Stream.Ext.{collect_then_try}
use cancel_safe_futures.Future.Executor.{Advanced, block_on, block_on_lem}

module _ {W A E C : Type 0} (st : TryStream W A E) (col : Collection C A) (fin : IsFinite st)
    (pauses : st.Stream → ℕ)
    (paused : (s : st.Stream) (w : W) → Pauses pauses (pauses s) (st.try_poll_next s w))
    (quiet : NeverPanics st col) where
  abbrev pub PausedBy : ℕ → Option (Answer {E = E} st col) → Type 0
  PausedBy k none = Unit
  PausedBy k (some (unwound, s, w)) = ⊥
  PausedBy k (some (returned pending, s, w)) = pauses s.stream < k
  PausedBy k (some (returned (ready r), s, w)) = Unit

  PausedBy-le : (k l : ℕ) (a : Option (Answer {E = E} st col)) → k ≤ l → PausedBy k a → PausedBy l a
  PausedBy-le k l none h p = tt
  PausedBy-le k l (some (returned pending, s, w)) h p = omega arith
  PausedBy-le k l (some (unwound, s, w)) h p = absurd p
  PausedBy-le k l (some (returned (ready r), s, w)) h p = tt

  after_extend-PausedBy :
      (again : CollectThenTry {E = E} st col → W → Option (Answer st col))
      → ((s : CollectThenTry st col) (w : W) → PausedBy (pauses s.stream) (again s w))
      → (s : CollectThenTry st col) (r : Outcome (Unit {0}) × C) (w : W) → ExtendIsCalm st col r
      → PausedBy (pauses s.stream) (after_extend st col again s r w)
  unfolding after_extend
  after_extend-PausedBy again ih s (unwound, c) w h = h
  after_extend-PausedBy again ih s (returned u, c) w h = ih _ w

  after_item-PausedBy :
      (again : CollectThenTry {E = E} st col → W → Option (Answer st col))
      → ((s : CollectThenTry st col) (w : W) → PausedBy (pauses s.stream) (again s w))
      → (s : CollectThenTry st col) (k : ℕ)
        (r : Outcome (Poll (Option (Result A E))) × st.Stream × W)
      → Pauses pauses k r
      → PausedBy k (after_item st col again s r)
  unfolding after_item
  after_item-PausedBy again ih s k (returned pending, x, w) h = h
  after_item-PausedBy again ih s k (unwound, x, w) h = absurd h
  after_item-PausedBy again ih s k (returned (ready none), x, w) h = tt
  after_item-PausedBy again ih s k (returned (ready (some (ok a))), x, w) h =
      PausedBy-le (pauses x) k _ h (
        after_extend-PausedBy again ih (record s { stream = x }) (col.extend s.items a) w
          (quiet s.items a))
  after_item-PausedBy again ih s k (returned (ready (some (err e))), x, w) h =
      PausedBy-le (pauses x) k _ h (ih _ w)

  pub poll-PausedBy :
      (n : ℕ) (s : CollectThenTry {E = E} st col) (w : W)
      → PausedBy (pauses s.stream) (poll st col n s w)
  unfolding poll
  poll-PausedBy zero s w = tt
  poll-PausedBy (suc n) s w =
      after_item-PausedBy (poll st col n) (poll-PausedBy n) s (pauses s.stream)
        (st.try_poll_next s.stream w) (paused s.stream w)

  -- At most `n` polls are left, fuel `m` serves each, and the result will be `r`.
  abbrev Left : ℕ → Result C E → ℕ → CollectThenTry {E = E} st col → Type 0
  Left m r n s =
      (pauses s.stream < n) × (length (fin.rest s.stream) < m) × (verdict st col fin s ≡ r)

  poll-Advanced :
      (m : ℕ) (r : Result C E) (n : ℕ) (s : CollectThenTry {E = E} st col)
      (a : Option (Answer st col))
      → Left m r (suc n) s
      → PausedBy (pauses s.stream) a
      → Collects st col fin s a
      → Advanced r (Left m r) n a
  poll-Advanced m r n s none h p c = absurd c
  poll-Advanced m r n s (some (unwound, s', w)) h p c = absurd p
  poll-Advanced m r n s (some (returned pending, s', w)) h p c =
      (omega arith, omega arith, c.0 ∙ h.2)
  poll-Advanced m r n s (some (returned (ready x), s', w)) h p c = c.0 ∙ h.2

  -- `collect_then_try` on a stream that yields finitely many items, never panics, and is pending at
  -- most `n` times, if `extend` never panics either, is ready after at most `n` + 1 polls, each of
  -- which goes through no more than the items. The result is the first error among all items, or
  -- else the collection of all successes. The world may change between the polls.
  pub block_on-collect_then_try :
      (between : W → W) (s : st.Stream) (n : ℕ) (w : W)
      → pauses s ≤ n
      → block_on
          (poll st col (suc (length (fin.rest s))))
          between
          (suc n)
          (collect_then_try st col s)
          w
        ≡ some (
            returned
              (verdict_of (first_err none (fin.rest s)) (collected col col.default (fin.rest s))))
  unfolding collect_then_try
  block_on-collect_then_try between s n w h =
      let m : ℕ = suc (length (fin.rest s)) in
      let r = verdict_of (first_err none (fin.rest s)) (collected col col.default (fin.rest s)) in
      block_on_lem r (Left m r) (poll st col m) between (λ c l. absurd (omega arith))
        (λ k c v l.
          poll-Advanced m r k c (poll st col m c v) l (poll-PausedBy m c v)
            (poll-Collects st col fin m c v l.1))
        (suc n) (collect_then_try st col s) w (omega arith, omega arith, refl)
