-- ===== src/Sink/Run.antt =====
-- src/sink/flush_reserve.rs: `flush_reserve` that is awaited by a task that is polled only when it
-- was woken.
use cancel_safe_futures.Base.{
  ℕ, suc, ◌<◌, ◌≤◌, ◌≡◌, Bool, true, Option, none, some, Result, ok, err, Poll, pending, ready,
  Outcome, returned, unwound, arith,
}
use cancel_safe_futures.Future.Woken.{block_on_woken, Ends, Nearer, block_on_woken-Ends}
use cancel_safe_futures.Sink.Ext.{flush_reserve}
use cancel_safe_futures.Sink.Defs.{
  Sink, Permit, FlushReserve, FlushReserveState, polling_flush, reserving, Answer, new_reserve,
  new_flush_reserve, after_ready, poll_reserve, then_reserve, after_flush, flush_some,
  poll_flush_reserve,
}

module _ {W Item E : Type 0} (si : Sink W Item E) (will_wake : W → Bool) where
  -- A poll of a sink that has `lag` polls to wait at most does not panic. If it is pending, it has
  -- arranged a wake-up and the sink has less to wait; it succeeds when `Done`, and fails with a
  -- `Failure`.
  abbrev pub Serves :
      (si.Si → ℕ)
      → (si.Si → Type 0)
      → (si.Si → Type 0)
      → (E → Type 0)
      → ℕ
      → Outcome (Poll (Result (Unit {0}) E)) × si.Si × W
      → Type 0
  Serves lag Kept Done Failure k (unwound, s, w) = ⊥
  Serves lag Kept Done Failure k (returned pending, s, w) =
      (lag s < k) × (will_wake w ≡ true) × Kept s
  Serves lag Kept Done Failure k (returned (ready (ok u)), s, w) = (lag s ≤ k) × Done s
  Serves lag Kept Done Failure k (returned (ready (err e)), s, w) = Failure e

  -- A sink that becomes flushed, and then ready, in a bounded number of polls.
  pub record Prompt : Type 1 where
    pub lag : si.Si → ℕ
    pub IsFlushed : si.Si → Type 0
    pub IsReady : si.Si → Type 0
    pub Failure : E → Type 0
    pub flush_law :
        (s : si.Si) (w : W) → Serves lag (λ s'. Unit) IsFlushed Failure (lag s) (si.poll_flush s w)
    pub ready_law :
        (s : si.Si) (w : W)
        → IsFlushed s
        → Serves lag IsFlushed (λ s'. IsFlushed s' × IsReady s') Failure (lag s) (si.poll_ready s w)

  module _ (prompt : Prompt) where
    -- A permit to a sink that is flushed and ready, or an error of the sink.
    abbrev pub IsServed : Result (Permit si) E → Type 0
    IsServed (ok p) = prompt.IsFlushed p.sink × prompt.IsReady p.sink
    IsServed (err e) = prompt.Failure e

    -- At most `n` polls are left.
    abbrev pub LeftIn : ℕ → FlushReserveState si → Option si.Si → Type 0
    LeftIn n st none = ⊥
    LeftIn n polling_flush (some s) = prompt.lag s < n
    LeftIn n reserving (some s) = (prompt.lag s < n) × prompt.IsFlushed s

    abbrev pub Left : ℕ → FlushReserve si → Type 0
    Left n f = LeftIn n f.state f.reserve.sink

    abbrev Polled : ℕ → Outcome (Answer si) × FlushReserve si × W → Type 0
    Polled n a = Nearer will_wake IsServed Left n (some a)

    ready-Polled :
        (n k : ℕ) (r : Outcome (Poll (Result (Unit {0}) E)) × si.Si × W)
        → k < suc n
        → Serves prompt.lag prompt.IsFlushed
            (λ s'. prompt.IsFlushed s' × prompt.IsReady s')
            prompt.Failure
            k
            r
        → let (a, r', w') = after_ready si r in
          Polled n (a, record { reserve = r'; state = reserving }, w')
    unfolding after_ready
    ready-Polled n k (unwound, s, w) b h = h
    ready-Polled n k (returned pending, s, w) b h = (h.1, (omega arith, h.2))
    ready-Polled n k (returned (ready (err e)), s, w) b h = h
    ready-Polled n k (returned (ready (ok u)), s, w) b h = h.1

    then_reserve-Polled :
        (n : ℕ) (s : si.Si) (w : W)
        → prompt.lag s < suc n
        → prompt.IsFlushed s
        → Polled n (then_reserve si (record { sink = some s }) w)
    unfolding then_reserve poll_reserve
    then_reserve-Polled n s w b h =
        ready-Polled n (prompt.lag s) (si.poll_ready s w) b (prompt.ready_law s w h)

    after_flush-Polled :
        (n k : ℕ) (r : Outcome (Poll (Result (Unit {0}) E)) × si.Si × W)
        → k < suc n
        → Serves prompt.lag (λ s'. Unit) prompt.IsFlushed prompt.Failure k r
        → Polled n (after_flush si r)
    unfolding after_flush
    after_flush-Polled n k (unwound, s, w) b h = h
    after_flush-Polled n k (returned pending, s, w) b h = (h.1, omega arith)
    after_flush-Polled n k (returned (ready (err e)), s, w) b h = h
    after_flush-Polled n k (returned (ready (ok u)), s, w) b h =
        then_reserve-Polled n s w (omega arith) h.1

    poll-Polled :
        (n : ℕ) (st : FlushReserveState si) (o : Option si.Si) (w : W)
        → LeftIn (suc n) st o
        → Polled n (poll_flush_reserve si (record { reserve = record { sink = o }; state = st }) w)
    unfolding poll_flush_reserve flush_some
    poll-Polled n st none w h = absurd h
    poll-Polled n polling_flush (some s) w h =
        after_flush-Polled n (prompt.lag s) (si.poll_flush s w) h (prompt.flush_law s w)
    poll-Polled n reserving (some s) w h = then_reserve-Polled n s w h.0 h.1

    none-Left : (st : FlushReserveState si) (o : Option si.Si) → LeftIn 0 st o → ⊥
    none-Left st none h = h
    none-Left polling_flush (some s) h = absurd (omega arith)
    none-Left reserving (some s) h = absurd (omega arith)

    -- `flush_reserve` that is awaited ends, under an executor that polls the task again only when
    -- it was woken: after at most `n` + 1 polls it has given a permit to a sink that is flushed and
    -- ready, or an error of the sink. This holds for a sink that does not panic and whose polls are
    -- pending at most `n` times, arrange a wake-up then, and leave it flushed or ready when they
    -- succeed, if a `poll_ready` leaves a flushed sink flushed. The world may change between the
    -- polls.
    pub block_on_woken-flush_reserve :
        (between : W → W) (s : si.Si) (n : ℕ) (w : W)
        → prompt.lag s ≤ n
        → Ends IsServed (
            block_on_woken will_wake
              (λ f v. some (poll_flush_reserve si f v))
              between
              (suc n)
              (flush_reserve si s)
              w)
    unfolding flush_reserve new_flush_reserve new_reserve
    block_on_woken-flush_reserve between s n w h =
        block_on_woken-Ends will_wake IsServed Left (λ f v. some (poll_flush_reserve si f v))
          between (λ f l. none-Left f.state f.reserve.sink l)
          (λ k f v l. poll-Polled k f.state f.reserve.sink v l) (suc n) (flush_reserve si s) w
          (omega arith)
