-- ===== src/Sink/Defs.antt =====
-- src/sink/reserve.rs, src/sink/flush_reserve.rs and src/sink/permit.rs. A future or a permit
-- borrows the sink exclusively, so it carries the sink's state. A poll of a sink reads and changes
-- the world.
use cancel_safe_futures.Base.{
  Bool, not, is_some, Option, none, some, Result, ok, err, Poll, pending, ready, Outcome, returned,
  unwound,
}

-- `Sink`, given by the caller.
pub record Sink (W Item E : Type 0) : Type 1 where
  pub Si : Type 0
  pub poll_ready : Si → W → Outcome (Poll (Result (Unit {0}) E)) × Si × W
  pub start_send : Item → Si → W → Outcome (Result (Unit {0}) E) × Si × W
  pub poll_flush : Si → W → Outcome (Poll (Result (Unit {0}) E)) × Si × W

module _ {W Item E : Type 0} (si : Sink W Item E) where
  pub record Permit : Type 0 where
    pub sink : si.Si

  -- `Permit::new`
  abbrev pub new_permit : si.Si → Permit
  new_permit s = record { sink = s }

  -- The sink is gone once a permit has been issued.
  pub record Reserve : Type 0 where
    pub sink : Option si.Si

  pub data FlushReserveState : Type 0 where
    polling_flush : FlushReserveState
    reserving : FlushReserveState

  pub record FlushReserve : Type 0 where
    pub reserve : Reserve
    pub state : FlushReserveState

  abbrev pub sink_pin_mut : Reserve → Option si.Si
  sink_pin_mut r = r.sink

  -- `SinkExt::reserve`
  unfoldable pub new_reserve : si.Si → Reserve
  new_reserve s = record { sink = some s }

  -- `SinkExt::flush_reserve`
  unfoldable pub new_flush_reserve : si.Si → FlushReserve
  unfolding new_reserve
  new_flush_reserve s = record { reserve = new_reserve s; state = polling_flush }

  unfoldable pub is_terminated : Reserve → Bool
  is_terminated r = not (is_some r.sink)

  unfoldable pub flush_is_terminated : FlushReserve → Bool
  unfolding is_terminated
  flush_is_terminated f = is_terminated f.reserve

  abbrev pub Answer : Type 0
  Answer = Poll (Result Permit E)

  -- `ready!(…)?`, then the permit.
  unfoldable pub after_ready :
      Outcome (Poll (Result (Unit {0}) E)) × si.Si × W → Outcome Answer × Reserve × W
  after_ready (unwound, s, w) = (unwound, record { sink = some s }, w)
  after_ready (returned pending, s, w) = (returned pending, record { sink = some s }, w)
  after_ready (returned (ready (err e)), s, w) =
      (returned (ready (err e)), record { sink = some s }, w)
  after_ready (returned (ready (ok u)), s, w) =
      (returned (ready (ok (new_permit s))), record { sink = none }, w)

  abbrev pub poll_some : Option si.Si → W → Outcome Answer × Reserve × W
  poll_some none w = (returned pending, record { sink = none }, w)
  poll_some (some s) w = after_ready (si.poll_ready s w)

  unfoldable pub poll_reserve : Reserve → W → Outcome Answer × Reserve × W
  unfolding after_ready
  poll_reserve r w = poll_some r.sink w

  -- `Pin::new(&mut this.reserve).poll(cx)`
  unfoldable pub then_reserve : Reserve → W → Outcome Answer × FlushReserve × W
  unfolding poll_reserve
  then_reserve r w =
      let (a, r', w') = poll_reserve r w in (a, record { reserve = r'; state = reserving }, w')

  -- `ready!(…)?`, then the state moves on.
  unfoldable pub after_flush :
      Outcome (Poll (Result (Unit {0}) E)) × si.Si × W → Outcome Answer × FlushReserve × W
  unfolding then_reserve
  after_flush (unwound, s, w) =
      (unwound, record { reserve = record { sink = some s }; state = polling_flush }, w)
  after_flush (returned pending, s, w) =
      (returned pending, record { reserve = record { sink = some s }; state = polling_flush }, w)
  after_flush (returned (ready (err e)), s, w) = (
    returned (ready (err e)),
    record { reserve = record { sink = some s }; state = polling_flush },
    w,
  )
  after_flush (returned (ready (ok u)), s, w) = then_reserve (record { sink = some s }) w

  -- `expect` panics without a sink.
  unfoldable pub flush_some : Option si.Si → W → Outcome Answer × FlushReserve × W
  unfolding after_flush
  flush_some none w =
      (unwound, record { reserve = record { sink = none }; state = polling_flush }, w)
  flush_some (some s) w = after_flush (si.poll_flush s w)

  abbrev pub poll_state : FlushReserveState → Reserve → W → Outcome Answer × FlushReserve × W
  poll_state polling_flush r w = flush_some (sink_pin_mut r) w
  poll_state reserving r w = then_reserve r w

  unfoldable pub poll_flush_reserve : FlushReserve → W → Outcome Answer × FlushReserve × W
  unfolding flush_some then_reserve
  poll_flush_reserve f w = poll_state f.state f.reserve w

  unfoldable pub feed : Permit → Item → W → Outcome (Result (Unit {0}) E) × si.Si × W
  feed p item w = si.start_send item p.sink w

  -- `?`, then `self.sink.flush()`, a future of `futures_util`.
  unfoldable pub after_send :
      {Flush : Type 0}
      → (si.Si → Flush)
      → Outcome (Result (Unit {0}) E) × si.Si × W
      → Outcome (Result Flush E) × Option si.Si × W
  after_send flush (unwound, s, w) = (unwound, some s, w)
  after_send flush (returned (err e), s, w) = (returned (err e), some s, w)
  after_send flush (returned (ok u), s, w) = (returned (ok (flush s)), none, w)

  -- The sink is given back unless the flush future borrows it.
  unfoldable pub send :
      {Flush : Type 0}
      → (si.Si → Flush)
      → Permit
      → Item
      → W
      → Outcome (Result Flush E) × Option si.Si × W
  unfolding after_send
  send flush p item w = after_send flush (si.start_send item p.sink w)
