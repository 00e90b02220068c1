-- ===== src/Stream/Collect/Woken.antt =====
-- src/stream/collect_then_try.rs: the adapter that is awaited by a task that is polled only when it
-- was woken.
use cancel_safe_futures.Base.{
  ℕ, suc, ◌≤◌, ◌≡◌, ◌∙◌, Bool, length, Option, none, some, pending, ready, returned, unwound,
}
use cancel_safe_futures.Stream.Defs.{TryStream, IsFinite, Pauses, first_err, verdict_of}
use cancel_safe_futures.Stream.Collect.Defs.{Collection, Answer, poll}
use cancel_safe_futures.Stream.Collect.Laws.{NeverPanics, collected}
use cancel_safe_futures.Stream.Collect.Waking.{OfStream, poll-IfAnyPending}
use cancel_safe_futures.Stream.Collect.Run.{block_on-collect_then_try}
use cancel_safe_futures.Stream.Ext.{collect_then_try}
use cancel_safe_futures.Future.Waking.{IfPending, IfAnyPending}
use cancel_safe_futures.Future.Woken.{Woken, Calls, block_on_woken, block_on_woken-block_on}

module _ {W A E C : Type 0} (st : TryStream W A E) (col : Collection C A) (will_wake : W → Bool)
    (wakes : (s : st.Stream) (w : W) → IfPending (Woken will_wake) (st.try_poll_next s w)) where
  OfStream-Calls :
      (a : Option (Answer {E = E} st col))
      → IfAnyPending (OfStream st col (Woken will_wake) wakes) a
      → Calls will_wake (λ s. Unit) a
  OfStream-Calls none h = tt
  OfStream-Calls (some (unwound, s, w)) h = tt
  OfStream-Calls (some (returned pending, s, w)) h = (h, tt)
  OfStream-Calls (some (returned (ready r), s, w)) h = tt

  -- `collect_then_try` on a stream that yields finitely many items, never panics, is pending at
  -- most `n` times, and arranges a wake-up each time, if `extend` never panics either, is ready
  -- after at most `n` + 1 polls under an executor that polls the task again only when it was woken.
  -- Each poll goes through no more than the items. The result is the first error among all items,
  -- or else the collection of all successes. The world may change between the polls.
  pub block_on_woken-collect_then_try :
      (fin : IsFinite st) (pauses : st.Stream → ℕ)
      → ((s : st.Stream) (w : W) → Pauses pauses (pauses s) (st.try_poll_next s w))
      → NeverPanics st col
      → (between : W → W) (s : st.Stream) (n : ℕ) (w : W) → pauses s ≤ n
      → block_on_woken will_wake
          (poll st col (suc (length (fin.rest s))))
          between
          (suc n)
          (collect_then_try st col s)
          w
        ≡ some (
            returned
              (verdict_of (first_err none (fin.rest s)) (collected col col.default (fin.rest s))))
  block_on_woken-collect_then_try fin pauses paused quiet between s n w h =
      let m : ℕ = suc (length (fin.rest s)) in
      block_on_woken-block_on will_wake (λ s. Unit) (poll st col m) between
        (λ c v i.
          OfStream-Calls (poll st col m c v)
            (poll-IfAnyPending st col (Woken will_wake) wakes m c v))
        (suc n) (collect_then_try st col s) w tt
      ∙ block_on-collect_then_try st col fin pauses paused quiet between s n w h
