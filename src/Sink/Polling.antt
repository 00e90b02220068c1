-- ===== src/Sink/Polling.antt =====
-- How the futures of src/sink/reserve.rs and src/sink/flush_reserve.rs end.
use cancel_safe_futures.Base.{
  ◌≡◌, refl, ap, ◌∙◌, Bool, true, false, ◌||◌, Option, none, some, Result, ok, err, Poll, pending,
  ready, Outcome, returned, unwound, is_unwound,
}
use cancel_safe_futures.Sink.Defs.{
  Sink, Reserve, FlushReserve, FlushReserveState, polling_flush, reserving, Answer, new_reserve,
  new_flush_reserve, is_terminated, flush_is_terminated, after_ready, poll_reserve, then_reserve,
  after_flush, flush_some, poll_flush_reserve,
}

module _ {W Item E : Type 0} (si : Sink W Item E) where
  abbrev pub gives_permit : Outcome (Answer si) → Bool
  gives_permit (returned (ready (ok p))) = true
  gives_permit (returned (ready (err e))) = false
  gives_permit (returned pending) = false
  gives_permit unwound = false

  -- What a poll does to the end of a future: `before` and `after` say if it was and is terminated.
  abbrev pub Terminates : Bool → Bool → W → Outcome (Answer si) → W → Type 0
  Terminates before after w a w' =
      (after ≡ (before || gives_permit a)) × (before ≡ true → (a ≡ returned pending) × (w' ≡ w))

  after_ready_lem :
      (r : Outcome (Poll (Result (Unit {0}) E)) × si.Si × W)
      → is_terminated si (after_ready si r).1 ≡ gives_permit (after_ready si r).0
  unfolding is_terminated after_ready
  after_ready_lem (unwound, s, w) = refl
  after_ready_lem (returned pending, s, w) = refl
  after_ready_lem (returned (ready (err e)), s, w) = refl
  after_ready_lem (returned (ready (ok u)), s, w) = refl

  -- The same, by the sink.
  poll_some_lem :
      (o : Option si.Si) (w : W)
      → let r : Reserve si = record { sink = o } in
        Terminates
          (is_terminated si r)
          (is_terminated si (poll_reserve si r w).1)
          w
          (poll_reserve si r w).0
          (poll_reserve si r w).2
  unfolding is_terminated poll_reserve
  poll_some_lem none w = (refl, λ h. (refl, refl))
  poll_some_lem (some s) w = (after_ready_lem (si.poll_ready s w), λ h. cc)

  -- A poll of `Reserve` terminates it exactly if the poll gives a permit; an error, a wait or a
  -- panic of the sink does not. A future that has terminated stays so: its polls are pending and
  -- change nothing.
  pub poll_reserve-is_terminated :
      (r : Reserve si) (w : W)
      → Terminates
          (is_terminated si r)
          (is_terminated si (poll_reserve si r w).1)
          w
          (poll_reserve si r w).0
          (poll_reserve si r w).2
  poll_reserve-is_terminated r w = poll_some_lem r.sink w

  -- The state that still flushes has its sink.
  abbrev pub HasSink : FlushReserveState si → Option si.Si → Type 0
  HasSink polling_flush none = ⊥
  HasSink polling_flush (some s) = Unit
  HasSink reserving o = Unit

  abbrev pub IsLive : FlushReserve si → Type 0
  IsLive f = HasSink f.state f.reserve.sink

  -- The same for a `FlushReserve`.
  abbrev pub FlushEnds : FlushReserve si → W → Outcome (Answer si) × FlushReserve si × W → Type 0
  FlushEnds f w (a, f', w') =
      IsLive f' × Terminates (flush_is_terminated si f) (flush_is_terminated si f') w a w'

  then_reserve_lem :
      (f : FlushReserve si) (r : Reserve si) (w0 w : W)
      → is_terminated si r ≡ is_terminated si f.reserve
      → (is_terminated si r ≡ true → w ≡ w0)
      → FlushEnds f w0 (then_reserve si r w)
  unfolding then_reserve flush_is_terminated
  then_reserve_lem f r w0 w e same =
      let ends = poll_reserve-is_terminated r w in
      (
        tt,
        (
          ends.0 ∙ ap (λ b. b || gives_permit (poll_reserve si r w).0) e,
          λ h. ((ends.1 (e ∙ h)).0, (ends.1 (e ∙ h)).1 ∙ same (e ∙ h)),
        ),
      )

  after_flush_lem :
      (s : si.Si) (w0 : W) (r : Outcome (Poll (Result (Unit {0}) E)) × si.Si × W)
      → FlushEnds (new_flush_reserve si s) w0 (after_flush si r)
  unfolding after_flush new_flush_reserve flush_is_terminated is_terminated
  after_flush_lem s w0 (unwound, s', w) = (tt, (refl, λ h. cc))
  after_flush_lem s w0 (returned pending, s', w) = (tt, (refl, λ h. cc))
  after_flush_lem s w0 (returned (ready (err e)), s', w) = (tt, (refl, λ h. cc))
  after_flush_lem s w0 (returned (ready (ok u)), s', w) =
      then_reserve_lem (new_flush_reserve si s) (new_reserve si s') w0 w refl (λ h. cc)

  flush_state_lem :
      (st : FlushReserveState si) (o : Option si.Si) (w : W)
      → HasSink st o
      → let f : FlushReserve si = record { reserve = record { sink = o }; state = st } in
        FlushEnds f w (poll_flush_reserve si f w)
  unfolding poll_flush_reserve flush_some new_flush_reserve
  flush_state_lem polling_flush none w h = absurd h
  flush_state_lem polling_flush (some s) w h = after_flush_lem s w (si.poll_flush s w)
  flush_state_lem reserving o w h =
      let r : Reserve si = record { sink = o } in
      then_reserve_lem (record { reserve = r; state = reserving }) r w w refl (λ e. refl)

  -- Whether the sink panics in a poll, by itself.
  abbrev pub ready_panics : Option si.Si → W → Bool
  ready_panics none w = false
  ready_panics (some s) w = is_unwound (si.poll_ready s w).0

  abbrev pub flush_panics : Outcome (Poll (Result (Unit {0}) E)) × si.Si × W → Bool
  flush_panics (unwound, s, w) = true
  flush_panics (returned (ready (ok u)), s, w) = ready_panics (some s) w
  flush_panics (returned (ready (err e)), s, w) = false
  flush_panics (returned pending, s, w) = false

  abbrev pub sink_panics : FlushReserveState si → Option si.Si → W → Bool
  sink_panics reserving o w = ready_panics o w
  sink_panics polling_flush none w = false
  sink_panics polling_flush (some s) w = flush_panics (si.poll_flush s w)

  after_ready-is_unwound :
      (r : Outcome (Poll (Result (Unit {0}) E)) × si.Si × W)
      → is_unwound (after_ready si r).0 ≡ is_unwound r.0
  unfolding after_ready
  after_ready-is_unwound (unwound, s, w) = refl
  after_ready-is_unwound (returned pending, s, w) = refl
  after_ready-is_unwound (returned (ready (err e)), s, w) = refl
  after_ready-is_unwound (returned (ready (ok u)), s, w) = refl

  then_reserve-is_unwound :
      (o : Option si.Si) (w : W)
      → is_unwound (then_reserve si (record { sink = o }) w).0 ≡ ready_panics o w
  unfolding then_reserve poll_reserve
  then_reserve-is_unwound none w = refl
  then_reserve-is_unwound (some s) w = after_ready-is_unwound (si.poll_ready s w)

  after_flush-is_unwound :
      (r : Outcome (Poll (Result (Unit {0}) E)) × si.Si × W)
      → is_unwound (after_flush si r).0 ≡ flush_panics r
  unfolding after_flush
  after_flush-is_unwound (unwound, s, w) = refl
  after_flush-is_unwound (returned pending, s, w) = refl
  after_flush-is_unwound (returned (ready (err e)), s, w) = refl
  after_flush-is_unwound (returned (ready (ok u)), s, w) = then_reserve-is_unwound (some s) w

  flush_state-is_unwound :
      (st : FlushReserveState si) (o : Option si.Si) (w : W)
      → HasSink st o
      → let f : FlushReserve si = record { reserve = record { sink = o }; state = st } in
        is_unwound (poll_flush_reserve si f w).0 ≡ sink_panics st o w
  unfolding poll_flush_reserve flush_some
  flush_state-is_unwound polling_flush none w h = absurd h
  flush_state-is_unwound polling_flush (some s) w h = after_flush-is_unwound (si.poll_flush s w)
  flush_state-is_unwound reserving o w h = then_reserve-is_unwound o w

  -- A poll of a `FlushReserve` whose state still flushes only while it has the sink panics exactly
  -- if the sink does, and leaves such a future in any case. It terminates exactly if the poll gives
  -- a permit, stays terminated, and its polls are then pending and change nothing.
  pub poll_flush_reserve-FlushEnds :
      (f : FlushReserve si) (w : W)
      → IsLive f
      → FlushEnds f w (poll_flush_reserve si f w)
        × (is_unwound (poll_flush_reserve si f w).0 ≡ sink_panics f.state f.reserve.sink w)
  poll_flush_reserve-FlushEnds f w h = (
    flush_state_lem f.state f.reserve.sink w h,
    flush_state-is_unwound f.state f.reserve.sink w h,
  )
