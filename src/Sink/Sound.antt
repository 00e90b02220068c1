-- ===== src/Sink/Sound.antt =====
-- The invariant of a client that uses the adapters of src/sink: what the trace of its sink is like.
use mathlib.Core.Path.{subst}
use cancel_safe_futures.Base.{
  ◌≡◌, ap, sym, true, List, [], ◌∷◌, Option, none, some, Result, ok, err, Poll, pending, ready,
  Outcome, returned, unwound,
}
use cancel_safe_futures.Sink.Ext.{reserve, flush_reserve}
use cancel_safe_futures.Sink.Defs.{
  Sink, FlushReserve, FlushReserveState, polling_flush, reserving as state_reserving, new_reserve,
  new_flush_reserve, after_ready, poll_reserve, then_reserve, after_flush, flush_some,
  poll_flush_reserve, feed, send, after_send as defs_after_send,
}
use cancel_safe_futures.Sink.Client.{
  Call, asked, sent, flushed, traced, FlushFuture, Traced, Phase, idle, reserving, flush_reserving,
  permitted, sending, broken, after_poll, after_flush_poll, given_back, after_send, Step,
  start_reserve, start_flush_reserve, poll, flush_poll, cancel, flush_cancel, discard, feed_item,
  send_item, flush_sent, drop_flush,
}
use cancel_safe_futures.Sink.Trace.{Granted, Flushed, Fine}

module _ {W Item E : Type 0} (si : Sink W Item E) (flush : FlushFuture (traced si)) where
  abbrev pub Holds : Option (Traced si flush) → List Item → Type 0
  Holds none given = ⊥
  Holds (some s) given = Fine s.1 given

  abbrev pub HoldsFlush :
      FlushReserveState (traced si) → Option (Traced si flush) → List Item → Type 0
  HoldsFlush st none given = ⊥
  HoldsFlush polling_flush (some s) given = Fine s.1 given
  HoldsFlush state_reserving (some s) given = Fine s.1 given × Flushed s.1

  abbrev pub Sound : Phase si flush → List Item → Type 0
  Sound (idle s) given = Fine s.1 given
  Sound (reserving r) given = Holds r.sink given
  Sound (flush_reserving f) given = HoldsFlush f.state f.reserve.sink given
  Sound (permitted b p) given =
      Fine p.sink.1 given × Granted p.sink.1 × (b ≡ true → Flushed p.sink.1)
  Sound (sending f) given = Fine (flush.sink_of f).1 given
  Sound broken given = ⊥

  abbrev pub trace_of : Option (Traced si flush) → List (Call Item E)
  trace_of none = []
  trace_of (some s) = s.1

  pub Holds-Fine :
      (o : Option (Traced si flush)) (given : List Item) → Holds o given → Fine (trace_of o) given
  Holds-Fine none given h = absurd h
  Holds-Fine (some s) given h = h

  pub HoldsFlush-Fine :
      (st : FlushReserveState (traced si)) (o : Option (Traced si flush)) (given : List Item)
      → HoldsFlush st o given
      → Fine (trace_of o) given
  HoldsFlush-Fine st none given h = absurd h
  HoldsFlush-Fine polling_flush (some s) given h = h
  HoldsFlush-Fine state_reserving (some s) given h = h.0

  given_back-Sound :
      (o : Option (Traced si flush)) (given : List Item)
      → Holds o given
      → Sound (given_back si flush o) given
  given_back-Sound none given h = h
  given_back-Sound (some s) given h = h

  -- What `poll_ready` may answer, on the trace `t`.
  ready-Sound :
      (t : List (Call Item E)) (r : Outcome (Poll (Result (Unit {0}) E))) (s : si.Si) (w : W)
      (given : List Item)
      → Fine t given
      → Sound (after_poll si flush (after_ready (traced si) (r, (s, asked r ∷ t), w))) given
  unfolding after_ready
  ready-Sound t unwound s w given h = h
  ready-Sound t (returned pending) s w given h = h
  ready-Sound t (returned (ready (err e))) s w given h = h
  ready-Sound t (returned (ready (ok u))) s w given h = (h, tt, λ e. cc)

  poll-Sound :
      (o : Option (Traced si flush)) (w : W) (given : List Item)
      → Holds o given
      → Sound (after_poll si flush (poll_reserve (traced si) (record { sink = o }) w)) given
  unfolding poll_reserve
  poll-Sound none w given h = absurd h
  poll-Sound (some (s, t)) w given h =
      let (r, s', w') = si.poll_ready s w in ready-Sound t r s' w' given h

  -- The same after a flush.
  ready-flush-Sound :
      (t : List (Call Item E)) (r : Outcome (Poll (Result (Unit {0}) E))) (s : si.Si) (w : W)
      (given : List Item)
      → Fine t given
      → Flushed t
      → let (a, r', w') = after_ready (traced si) (r, (s, asked r ∷ t), w) in
        Sound
          (after_flush_poll si flush (a, record { reserve = r'; state = state_reserving }, w'))
          given
  unfolding after_ready
  ready-flush-Sound t unwound s w given h f = (h, f)
  ready-flush-Sound t (returned pending) s w given h f = (h, f)
  ready-flush-Sound t (returned (ready (err e))) s w given h f = (h, f)
  ready-flush-Sound t (returned (ready (ok u))) s w given h f = (h, tt, λ e. f)

  then_reserve-Sound :
      (s : Traced si flush) (w : W) (given : List Item)
      → Fine s.1 given
      → Flushed s.1
      → Sound
          (after_flush_poll si flush (then_reserve (traced si) (record { sink = some s }) w))
          given
  unfolding then_reserve poll_reserve
  then_reserve-Sound (s, t) w given h f =
      let (r, s', w') = si.poll_ready s w in ready-flush-Sound t r s' w' given h f

  after_flush-Sound :
      (t : List (Call Item E)) (r : Outcome (Poll (Result (Unit {0}) E))) (s : si.Si) (w : W)
      (given : List Item)
      → Fine t given
      → Sound (after_flush_poll si flush (after_flush (traced si) (r, (s, flushed r ∷ t), w))) given
  unfolding after_flush
  after_flush-Sound t unwound s w given h = h
  after_flush-Sound t (returned pending) s w given h = h
  after_flush-Sound t (returned (ready (err e))) s w given h = h
  after_flush-Sound t (returned (ready (ok u))) s w given h =
      then_reserve-Sound (s, flushed (returned (ready (ok u))) ∷ t) w given h tt

  flush_poll-Sound :
      (st : FlushReserveState (traced si)) (o : Option (Traced si flush)) (w : W)
      (given : List Item)
      → HoldsFlush st o given
      → let f : FlushReserve (traced si) = record { reserve = record { sink = o }; state = st } in
        Sound (after_flush_poll si flush (poll_flush_reserve (traced si) f w)) given
  unfolding poll_flush_reserve flush_some
  flush_poll-Sound st none w given h = absurd h
  flush_poll-Sound polling_flush (some (s, t)) w given h =
      let (r, s', w') = si.poll_flush s w in after_flush-Sound t r s' w' given h
  flush_poll-Sound state_reserving (some s) w given h = then_reserve-Sound s w given h.0 h.1

  HoldsFlush-Sound :
      (st : FlushReserveState (traced si)) (o : Option (Traced si flush)) (given : List Item)
      → HoldsFlush st o given
      → Sound (given_back si flush o) given
  HoldsFlush-Sound st none given h = absurd h
  HoldsFlush-Sound polling_flush (some s) given h = h
  HoldsFlush-Sound state_reserving (some s) given h = h.0

  -- A `start_send` on a granted trace.
  sent-Fine :
      (t : List (Call Item E)) (item : Item) (r : Outcome (Result (Unit {0}) E)) (given : List Item)
      → Fine t given
      → Granted t
      → Fine (sent item r ∷ t) (item ∷ given)
  sent-Fine t item r given h g = ((g, h.0), ap (λ is. item ∷ is) h.1)

  send-Sound :
      (r : Outcome (Result (Unit {0}) E)) (s : Traced si flush) (w : W) (given : List Item)
      → Fine s.1 given
      → Sound (after_send si flush (defs_after_send (traced si) flush.new (r, s, w))) given
  unfolding defs_after_send
  send-Sound unwound s w given h = h
  send-Sound (returned (err e)) s w given h = h
  send-Sound (returned (ok u)) s w given h =
      subst (λ s'. Fine s'.1 given) (sym (flush.sink_of-new s)) h

  pub Step-Sound :
      {given : List Item} {p q : Phase si flush} {given' : List Item}
      → Step si flush given p q given'
      → Sound p given
      → Sound q given'
  unfolding reserve flush_reserve new_reserve new_flush_reserve feed send
  Step-Sound start_reserve h = h
  Step-Sound start_flush_reserve h = h
  Step-Sound {given} (poll {r} w) h = poll-Sound r.sink w given h
  Step-Sound {given} (flush_poll {f} w) h = flush_poll-Sound f.state f.reserve.sink w given h
  Step-Sound {given} (cancel {r}) h = given_back-Sound r.sink given h
  Step-Sound {given} (flush_cancel {f}) h = HoldsFlush-Sound f.state f.reserve.sink given h
  Step-Sound discard h = h.0
  Step-Sound {given} (feed_item {p} item w) h =
      sent-Fine p.sink.1 item (si.start_send item p.sink.0 w).0 given h.0 h.1
  Step-Sound {given} (send_item {p} item w) h =
      let (r, s, w') = (traced si).start_send item p.sink w in
      send-Sound r s w' (item ∷ given) (sent-Fine p.sink.1 item r given h.0 h.1)
  Step-Sound {given} (flush_sent {f} w) h =
      subst (λ s. Fine s.1 given) (sym (flush.sink_of-poll f w)) h
  Step-Sound drop_flush h = h
