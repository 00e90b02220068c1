-- ===== src/Sink/Protocol.antt =====
-- What a sink sees of clients that use the adapters of src/sink, whatever they cancel and drop.
use mathlib.Core.Path.{subst}
use cancel_safe_futures.Base.{◌≡◌, ◌≢◌, refl, sym, Bool, true, List, []}
use cancel_safe_futures.Sink.Defs.{Sink, Permit}
use cancel_safe_futures.Sink.Client.{
  Call, traced, FlushFuture, Phase, idle, reserving, flush_reserving, permitted, sending, broken,
  Client, Reach, here, next, init,
}
use cancel_safe_futures.Sink.Trace.{Granted, Flushed, Ordered, items, Fine}
use cancel_safe_futures.Sink.Sound.{Sound, trace_of, Holds-Fine, HoldsFlush-Fine, Step-Sound}

module _ {W Item E : Type 0} (si : Sink W Item E) (flush : FlushFuture (traced si)) where
  Reach-Sound :
      {c d : Client si flush}
      → Reach si flush c d
      → Sound si flush c.phase c.given
      → Sound si flush d.phase d.given
  Reach-Sound here h = h
  Reach-Sound (next r s) h = Step-Sound si flush s (Reach-Sound r h)

  -- The trace of the sink that a client has.
  abbrev pub trace : Phase si flush → List (Call Item E)
  trace (idle s) = s.1
  trace (reserving r) = trace_of si flush r.sink
  trace (flush_reserving f) = trace_of si flush f.reserve.sink
  trace (permitted b p) = p.sink.1
  trace (sending f) = (flush.sink_of f).1
  trace broken = []

  Sound-Fine :
      (p : Phase si flush) (given : List Item) → Sound si flush p given → Fine (trace p) given
  Sound-Fine (idle s) given h = h
  Sound-Fine (reserving r) given h = Holds-Fine si flush r.sink given h
  Sound-Fine (flush_reserving f) given h = HoldsFlush-Fine si flush f.state f.reserve.sink given h
  Sound-Fine (permitted b p) given h = h.0
  Sound-Fine (sending f) given h = h
  Sound-Fine broken given h = absurd h

  -- A client that sends through the adapters keeps the contract of `Sink`, whatever it cancels and
  -- drops on the way, and whatever panics of the sink it catches: every `start_send` that the sink
  -- got follows directly on a `poll_ready` that succeeded.
  pub Reach-Ordered :
      (s : si.Si) {c : Client si flush}
      → Reach si flush (init si flush s) c
      → Ordered (trace c.phase)
  Reach-Ordered s {c} r = (Sound-Fine c.phase c.given (Reach-Sound r (tt, refl))).0

  -- In every reachable state the items that the sink got are those that the client gave to permits,
  -- in the same order: a future or a permit that is dropped has neither lost nor sent an item.
  pub items-trace :
      (s : si.Si) {c : Client si flush}
      → Reach si flush (init si flush s) c
      → items (trace c.phase) ≡ c.given
  items-trace s {c} r = (Sound-Fine c.phase c.given (Reach-Sound r (tt, refl))).1

  -- A permit that a client holds stands for a `poll_ready` that succeeded and was the last call; if
  -- `flush_reserve` gave it, then nothing but `poll_ready` was called since a successful
  -- `poll_flush`.
  pub permitted-Granted :
      (s : si.Si) {c : Client si flush} (b : Bool) (p : Permit (traced si))
      → Reach si flush (init si flush s) c
      → c.phase ≡ permitted b p
      → Granted (trace c.phase) × (b ≡ true → Flushed (trace c.phase))
  permitted-Granted s {c} b p r e =
      let h = subst (λ q. Sound si flush q c.given) e (Reach-Sound r (tt, refl)) in
      subst (λ q. Granted (trace q) × (b ≡ true → Flushed (trace q))) (sym e) (h.1, h.2)

  -- No reachable state is one in which a future panicked without a sink or a dropped future had
  -- lost it.
  pub Reach-broken :
      (s : si.Si) {c : Client si flush} → Reach si flush (init si flush s) c → c.phase ≢ broken
  Reach-broken s {c} r e = subst (λ q. Sound si flush q c.given) e (Reach-Sound r (tt, refl))
