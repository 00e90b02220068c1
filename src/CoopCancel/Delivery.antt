-- ===== src/CoopCancel/Delivery.antt =====
-- src/coop_cancel.rs: what a poll of `recv` gives, in every reachable state.
use mathlib.Core.Path.{subst}
use cancel_safe_futures.Base.{
  ℕ, zero, suc, ◌<◌, ◌≡◌, ◌∙◌, refl, ap, false, List, [], ◌∷◌, Option, none, some, Result, ok, err,
  Poll, pending, ready, arith,
}
use cancel_safe_futures.CoopCancel.Channels.{Unbounded, Oneshot, Receives, Ends}
use cancel_safe_futures.CoopCancel.Defs.{
  Never, CancelPayload, Receiver, new_pair, new_payload, after_send, cancel, clone, after_recv,
  poll_recv, drop_receiver,
}
use cancel_safe_futures.CoopCancel.System.{
  System, after_cancel, after_poll_recv, Step, by_cancel, by_clone, by_drop, by_recv,
  by_drop_receiver, by_wait, by_drop_waiter, Reach, here, next, init,
}
use cancel_safe_futures.CoopCancel.Invariant.{messages, Open, Inv}
use cancel_safe_futures.CoopCancel.Safety.{Reach-Inv, init-Inv}

-- What `recv` promises, from what it has given, what was sent, and the number of cancelers: `None`
-- after a message, else the first message, else `None` only without cancelers.
abbrev pub Gives : {T : Type 0} → List T → List T → ℕ → Poll (Option T) → Type 0
Gives (x ∷ received) sent n out = out ≡ ready none
Gives [] (m ∷ sent) n out = out ≡ ready (some m)
Gives [] [] (suc n) out = out ≡ pending
Gives [] [] zero out = out ≡ ready none

module _ {T : Type 0} (once : Oneshot Never) (mpsc : Unbounded (CancelPayload T once)) where
  -- The channel knows the number of cancelers.
  abbrev Counted : System once mpsc → Type 0
  Counted s = mpsc.senders s.shared.0 ≡ s.cancelers

  cancel-Counted :
      (s : System once mpsc) (m : T) (rx : once.Receiver) (st : once.Store)
      (out : Result (Unit {0}) (CancelPayload T once) × mpsc.Channel)
      → mpsc.senders out.1 ≡ s.cancelers
      → Counted (after_cancel once mpsc s m (after_send once mpsc rx st out))
  unfolding after_send
  cancel-Counted s m rx st (ok u, c) h = h
  cancel-Counted s m rx st (err p, c) h = h

  recv-Counted :
      (s : System once mpsc) (r : Receiver once mpsc) (st : once.Store)
      (out : Poll (Option (CancelPayload T once)) × mpsc.Channel)
      → mpsc.senders out.1 ≡ s.cancelers
      → Counted (after_poll_recv once mpsc s (after_recv once mpsc r st out))
  unfolding after_recv
  recv-Counted s r st (pending, c) h = h
  recv-Counted s r st (ready none, c) h = h
  recv-Counted s r st (ready (some p), c) h = h

  poll_recv-Counted :
      (s : System once mpsc) (o : Option once.Sender)
      → Counted s
      → Counted
          (after_poll_recv once mpsc s (poll_recv once mpsc (record { first_sender = o }) s.shared))
  unfolding poll_recv
  poll_recv-Counted s (some tx) h = h
  poll_recv-Counted s none h =
      recv-Counted s (record { first_sender = none }) s.shared.1 (mpsc.recv s.shared.0)
        (mpsc.recv_senders s.shared.0 ∙ h)

  Step-Counted : {s t : System once mpsc} → Step once mpsc s t → Counted s → Counted t
  unfolding cancel new_payload clone drop_receiver
  Step-Counted {s} (by_cancel m n e) h =
      let (c, st) = s.shared in
      let (tx, rx, st') = once.channel st in
      let p : CancelPayload T once = record { message = m; dropped_sender = tx } in
      cancel-Counted s m rx st' (mpsc.send p c) (mpsc.send_senders p c ∙ h)
  Step-Counted {s} (by_clone n e) h = mpsc.clone_senders s.shared.0 ∙ ap suc h
  Step-Counted {s} (by_drop n e) h = mpsc.drop_senders s.shared.0 n (h ∙ e)
  Step-Counted {s} (by_recv r e) h = poll_recv-Counted s r.first_sender h
  Step-Counted {s} (by_drop_receiver r e) h = mpsc.close_senders s.shared.0 ∙ h
  Step-Counted {s} (by_wait w) h = h
  Step-Counted {s} (by_drop_waiter w) h = h

  Reach-Counted : {s t : System once mpsc} → Reach once mpsc s t → Counted s → Counted t
  Reach-Counted here h = h
  Reach-Counted (next r x) h = Step-Counted x (Reach-Counted r h)

  -- A poll of the channel that is not put off by the budget of the task: it is pending only if the
  -- channel is empty and has senders.
  abbrev pub InTime : mpsc.Channel → Poll (Option (CancelPayload T once)) → Type 0
  InTime c pending = (mpsc.queue c ≡ []) × (0 < mpsc.senders c)
  InTime c (ready x) = Unit

  recv-Gives :
      (c : mpsc.Channel) (st : once.Store) (r : Receiver once mpsc) (sent received : List T)
      (out : Poll (Option (CancelPayload T once)) × mpsc.Channel)
      → received ≡ []
      → messages once mpsc (mpsc.queue c) ≡ sent
      → mpsc.closed c ≡ false
      → Receives mpsc.queue mpsc.closed c out
      → Ends (mpsc.closed c) (mpsc.senders c) out.0
      → InTime c out.0
      → Gives received sent (mpsc.senders c) (after_recv once mpsc r st out).0
  unfolding after_recv
  recv-Gives c st r sent received (pending, c') e q o l d i = ground arith
  recv-Gives c st r sent received (ready none, c') e q o l d i = ground arith
  recv-Gives c st r sent received (ready (some p), c') e q o l d i = ground arith

  poll_recv-Open :
      (c : mpsc.Channel) (st : once.Store) (o : Option once.Sender) (sent received : List T)
      → mpsc.closed c ≡ false
      → Open once mpsc o (messages once mpsc (mpsc.queue c)) sent received
      → InTime c (mpsc.recv c).0
      → Gives received sent
          (mpsc.senders c)
          (poll_recv once mpsc (record { first_sender = o }) (c, st)).0
  unfolding poll_recv
  poll_recv-Open c st (some tx) sent [] c_open h i = absurd h
  poll_recv-Open c st (some tx) sent (m ∷ received) c_open h i = refl
  poll_recv-Open c st none sent received c_open h i =
      recv-Gives c st (record { first_sender = none }) sent received (mpsc.recv c) h.0 h.1 c_open
        (mpsc.recv_law c) (mpsc.recv_ends c) i

  -- A message comes out as it went in. In every reachable state with a receiver, a poll of `recv`
  -- gives the first message for which `cancel` succeeded, if there is one and none has been
  -- received; `None` if one has been received; and if none was sent, it is pending while there are
  -- cancelers, and gives `None` when there are none. This holds if the poll of the channel is not
  -- put off.
  pub poll_recv-Gives :
      (st : once.Store) {s : System once mpsc} (r : Receiver once mpsc)
      → Reach once mpsc (init once mpsc st) s
      → s.receiver ≡ some r
      → InTime s.shared.0 (mpsc.recv s.shared.0).0
      → Gives s.received s.sent s.cancelers (poll_recv once mpsc r s.shared).0
  unfolding new_pair
  poll_recv-Gives st {s} r reach e i =
      let h =
        subst (λ o. Inv once mpsc o s.shared s.waiters s.sent s.received) e
          (Reach-Inv once mpsc reach (init-Inv once mpsc st)) in
      subst (λ n. Gives s.received s.sent n (poll_recv once mpsc r s.shared).0)
        (Reach-Counted reach mpsc.new_law.2)
        (poll_recv-Open s.shared.0 s.shared.1 r.first_sender s.sent s.received h.0 h.1 i)
