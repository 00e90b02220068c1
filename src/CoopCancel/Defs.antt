-- ===== src/CoopCancel/Defs.antt =====
-- src/coop_cancel.rs: the operations of `Canceler`, `Receiver` and `Waiter`, on the channel that
-- they share and on the store of one-shot channels.
use cancel_safe_futures.Base.{
  List, [], ◌∷◌, Option, none, some, Result, ok, err, Poll, pending, ready,
}
use cancel_safe_futures.CoopCancel.Channels.{Unbounded, Oneshot}

-- It has no values.
abbrev pub Never : Type 0
Never = ⊥

pub record CancelPayload (T : Type 0) (once : Oneshot Never) : Type 0 where
  pub message : T
  pub dropped_sender : once.Sender

module _ {T : Type 0} (once : Oneshot Never) (mpsc : Unbounded (CancelPayload T once)) where
  pub record Receiver : Type 0 where
    pub first_sender : Option once.Sender

  pub record Waiter : Type 0 where
    pub dropped_receiver : once.Receiver

  -- The channel and the store.
  abbrev pub Shared : Type 0
  Shared = mpsc.Channel × once.Store

  -- Both halves hold the channel.
  unfoldable pub new_pair : mpsc.Channel × Receiver
  new_pair = (mpsc.new, record { first_sender = none })

  -- `CancelPayload::new`
  unfoldable pub new_payload : T → once.Store → CancelPayload T once × once.Receiver × once.Store
  new_payload message s =
      let (dropped_sender, dropped_receiver, s') = once.channel s in
      (record { message = message; dropped_sender = dropped_sender }, dropped_receiver, s')

  -- `match self.sender.send(message)`; the payload that comes back loses its sender, and then its
  -- receiver is dropped with the call.
  unfoldable pub after_send :
      once.Receiver
      → once.Store
      → Result (Unit {0}) (CancelPayload T once) × mpsc.Channel
      → Result Waiter T × Shared
  after_send rx s (ok u, c) = (ok (record { dropped_receiver = rx }), (c, s))
  after_send rx s (err p, c) =
      (err p.message, (c, once.drop_receiver rx (once.drop_sender p.dropped_sender s)))

  unfoldable pub cancel : T → Shared → Result Waiter T × Shared
  unfolding new_payload after_send
  cancel message (c, s) =
      let (payload, rx, s') = new_payload message s in after_send rx s' (mpsc.send payload c)

  -- `<Canceler as Clone>::clone`
  unfoldable pub clone : Shared → Shared
  clone (c, s) = (mpsc.clone_sender c, s)

  -- `match self.receiver.recv().await`
  unfoldable pub after_recv :
      Receiver
      → once.Store
      → Poll (Option (CancelPayload T once)) × mpsc.Channel
      → Poll (Option T) × Receiver × Shared
  after_recv r s (pending, c) = (pending, r, (c, s))
  after_recv r s (ready none, c) = (ready none, r, (c, s))
  after_recv r s (ready (some p), c) =
      (ready (some p.message), record { first_sender = some p.dropped_sender }, (c, s))

  abbrev pub recv_by : Option once.Sender → Shared → Poll (Option T) × Receiver × Shared
  recv_by (some tx) sh = (ready none, record { first_sender = some tx }, sh)
  recv_by none (c, s) = after_recv (record { first_sender = none }) s (mpsc.recv c)

  -- One poll of the future of `recv`; it keeps nothing between polls.
  unfoldable pub poll_recv : Receiver → Shared → Poll (Option T) × Receiver × Shared
  unfolding after_recv
  poll_recv r sh = recv_by r.first_sender sh

  abbrev pub drop_payloads : List (CancelPayload T once) → once.Store → once.Store
  drop_payloads [] s = s
  drop_payloads (p ∷ ps) s = drop_payloads ps (once.drop_sender p.dropped_sender s)

  abbrev pub drop_first : Option once.Sender → once.Store → once.Store
  drop_first none s = s
  drop_first (some tx) s = once.drop_sender tx s

  -- The fields of a `Receiver` in the order of their declaration: the channel with what is queued
  -- in it, then the first sender.
  unfoldable pub drop_receiver : Receiver → Shared → Shared
  drop_receiver r (c, s) =
      let (ps, c') = mpsc.drop_receiver c in (c', drop_first r.first_sender (drop_payloads ps s))

  abbrev pub waited : Poll (Result Never (Unit {0})) → Poll (Unit {0})
  waited pending = pending
  waited (ready (ok n)) = absurd n
  waited (ready (err e)) = ready tt

  -- A `Waiter` that is dropped.
  abbrev pub drop_waiter : Waiter → once.Store → once.Store
  drop_waiter w s = once.drop_receiver w.dropped_receiver s

  unfoldable pub poll_waiter : Waiter → once.Store → Poll (Unit {0}) × Waiter × once.Store
  poll_waiter w s =
      let (r, rx, s') = once.poll w.dropped_receiver s in
      (waited r, record { dropped_receiver = rx }, s')
