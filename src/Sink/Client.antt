-- ===== src/Sink/Client.antt =====
-- src/sink/mod.rs: a client that sends to a sink through the adapters only, and may drop every
-- future and every permit at any time. The sink under it keeps a trace of the calls that it got.
use cancel_safe_futures.Base.{
  ◌≡◌, Bool, true, false, List, [], ◌∷◌, Option, none, some, Result, ok, err, Poll, pending, ready,
  Outcome, returned, unwound,
}
use cancel_safe_futures.Sink.Ext.{reserve, flush_reserve}
use cancel_safe_futures.Sink.Defs.{
  Sink, Permit, Reserve, FlushReserve, Answer, poll_reserve, poll_flush_reserve, feed, send,
}

-- A call of the sink, with what it answered.
pub data Call (Item E : Type 0) : Type 0 where
  asked : Outcome (Poll (Result (Unit {0}) E)) → Call Item E
  sent : Item → Outcome (Result (Unit {0}) E) → Call Item E
  flushed : Outcome (Poll (Result (Unit {0}) E)) → Call Item E

module _ {W Item E : Type 0} where
  abbrev pub traced : Sink W Item E → Sink W Item E
  traced si = record {
    Si = si.Si × List (Call Item E);
    poll_ready = λ (s, t) w. let (r, s', w') = si.poll_ready s w in (r, (s', asked r ∷ t), w');
    start_send =
        λ item (s, t) w. let (r, s', w') = si.start_send item s w in (r, (s', sent item r ∷ t), w');
    poll_flush = λ (s, t) w. let (r, s', w') = si.poll_flush s w in (r, (s', flushed r ∷ t), w');
  }

-- `futures_util::sink::Flush`, which is not part of the crate: each poll is one `poll_flush`.
pub record FlushFuture {W Item E : Type 0} (si : Sink W Item E) : Type 1 where
  pub Flush : Type 0
  pub new : si.Si → Flush
  pub poll : Flush → W → Outcome (Poll (Result (Unit {0}) E)) × Flush × W
  pub sink_of : Flush → si.Si
  pub sink_of-new : (s : si.Si) → sink_of (new s) ≡ s
  pub sink_of-poll : (f : Flush) (w : W) → sink_of (poll f w).1 ≡ (si.poll_flush (sink_of f) w).1

module _ {W Item E : Type 0} (si : Sink W Item E) (flush : FlushFuture (traced si)) where
  abbrev pub Traced : Type 0
  Traced = si.Si × List (Call Item E)

  pub data Phase : Type 0 where
    idle : Traced → Phase
    reserving : Reserve (traced si) → Phase
    flush_reserving : FlushReserve (traced si) → Phase
    -- whether `flush_reserve` gave the permit
    permitted : Bool → Permit (traced si) → Phase
    sending : flush.Flush → Phase
    broken : Phase

  -- The client remembers the items that it gave to permits, the last one first.
  pub record Client : Type 0 where
    pub phase : Phase
    pub given : List Item

  -- A permit outlives the future that gave it. A future that a panic of the sink went through
  -- stays.
  abbrev pub after_poll : Outcome (Answer (traced si)) × Reserve (traced si) × W → Phase
  after_poll (unwound, r, w) = reserving r
  after_poll (returned (ready (ok p)), r, w) = permitted false p
  after_poll (returned (ready (err e)), r, w) = reserving r
  after_poll (returned pending, r, w) = reserving r

  -- The client is broken if the future that panicked has no sink.
  abbrev pub after_panic : FlushReserve (traced si) → Option Traced → Phase
  after_panic f none = broken
  after_panic f (some s) = flush_reserving f

  abbrev pub after_flush_poll : Outcome (Answer (traced si)) × FlushReserve (traced si) × W → Phase
  after_flush_poll (unwound, f, w) = after_panic f f.reserve.sink
  after_flush_poll (returned (ready (ok p)), f, w) = permitted true p
  after_flush_poll (returned (ready (err e)), f, w) = flush_reserving f
  after_flush_poll (returned pending, f, w) = flush_reserving f

  -- A future that gave no permit gives the sink back when it is dropped.
  abbrev pub given_back : Option Traced → Phase
  given_back none = broken
  given_back (some s) = idle s

  abbrev pub after_send : Outcome (Result flush.Flush E) × Option Traced × W → Phase
  after_send (unwound, s, w) = given_back s
  after_send (returned (ok f), s, w) = sending f
  after_send (returned (err e), s, w) = given_back s

  -- The world in which a step runs is arbitrary: others may have changed it.
  pub data Step (given : List Item) : Phase → Phase → List Item → Type 0 where
    start_reserve : {s : Traced} → Step given (idle s) (reserving (reserve (traced si) s)) given
    start_flush_reserve :
        {s : Traced} → Step given (idle s) (flush_reserving (flush_reserve (traced si) s)) given
    poll :
        {r : Reserve (traced si)} (w : W)
        → Step given (reserving r) (after_poll (poll_reserve (traced si) r w)) given
    flush_poll :
        {f : FlushReserve (traced si)} (w : W)
        → Step given
            (flush_reserving f)
            (after_flush_poll (poll_flush_reserve (traced si) f w))
            given
    cancel : {r : Reserve (traced si)} → Step given (reserving r) (given_back r.sink) given
    flush_cancel :
        {f : FlushReserve (traced si)}
        → Step given (flush_reserving f) (given_back f.reserve.sink) given
    discard : {b : Bool} {p : Permit (traced si)} → Step given (permitted b p) (idle p.sink) given
    feed_item :
        {b : Bool} {p : Permit (traced si)} (item : Item) (w : W)
        → Step given (permitted b p) (idle (feed (traced si) p item w).1) (item ∷ given)
    send_item :
        {b : Bool} {p : Permit (traced si)} (item : Item) (w : W)
        → Step given
            (permitted b p)
            (after_send (send (traced si) flush.new p item w))
            (item ∷ given)
    flush_sent :
        {f : flush.Flush} (w : W) → Step given (sending f) (sending (flush.poll f w).1) given
    drop_flush : {f : flush.Flush} → Step given (sending f) (idle (flush.sink_of f)) given

  pub data Reach (c : Client) : Client → Type 0 where
    here : Reach c c
    next :
        {d : Client} {p : Phase} {given : List Item}
        → Reach c d
        → Step d.given d.phase p given
        → Reach c (record { phase = p; given = given })

  abbrev pub init : si.Si → Client
  init s = record { phase = idle (s, []); given = [] }
