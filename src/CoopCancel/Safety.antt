-- ===== src/CoopCancel/Safety.antt =====
-- What every reachable state of src/coop_cancel.rs keeps.
use mathlib.Core.Path.{subst}
use cancel_safe_futures.Base.{
  ℕ, ◌≡◌, refl, ap, ◌∙◌, sym, List, [], Option, none, some, Poll, pending, ready,
}
use cancel_safe_futures.CoopCancel.Channels.{Unbounded, Oneshot, Receives}
use cancel_safe_futures.CoopCancel.Defs.{
  Never, CancelPayload, Receiver, Waiter, new_pair, new_payload, cancel, clone, after_recv,
  poll_recv, drop_receiver, poll_waiter,
}
use cancel_safe_futures.CoopCancel.System.{
  System, after_poll_recv, Step, by_cancel, by_clone, by_drop, by_recv, by_drop_receiver, by_wait,
  by_drop_waiter, Reach, here, next, init,
}
use cancel_safe_futures.CoopCancel.Invariant.{
  messages, Open, Inv, InvOf, AllAlive-keep, Open-FirstOnly, cancel-Inv,
}

module _ {T : Type 0} (once : Oneshot Never) (mpsc : Unbounded (CancelPayload T once)) where
  recv-Inv :
      (c : mpsc.Channel) (st : once.Store) (ws : List (Waiter once mpsc)) (sent : List T) (n : ℕ)
      (out : Poll (Option (CancelPayload T once)) × mpsc.Channel) (r0 : Option (Receiver once mpsc))
      → Inv once mpsc (some (record { first_sender = none })) (c, st) ws sent []
      → Receives mpsc.queue mpsc.closed c out
      → let s : System once mpsc = record {
        shared = (c, st);
        cancelers = n;
        receiver = r0;
        waiters = ws;
        sent = sent;
        received = [];
      } in
        InvOf once mpsc (
          after_poll_recv once mpsc s
            (after_recv once mpsc (record { first_sender = none }) st out))
  unfolding after_recv
  recv-Inv c st ws sent n (pending, c') r0 h l =
      (l.1 ∙ h.0, (refl, ap (messages once mpsc) l.0 ∙ h.1.1), h.2)
  recv-Inv c st ws sent n (ready none, c') r0 h l =
      (l.2 ∙ h.0, (refl, ap (messages once mpsc) (l.1 ∙ sym l.0) ∙ h.1.1), h.2)
  recv-Inv c st ws sent n (ready (some p), c') r0 h l =
      (l.1 ∙ h.0, sym h.1.1 ∙ ap (messages once mpsc) l.0, h.2)

  -- A poll of `recv` by the receiver `r`.
  poll_recv-Inv :
      (s : System once mpsc) (o : Option once.Sender)
      → Inv once mpsc (some (record { first_sender = o })) s.shared s.waiters s.sent s.received
      → InvOf once mpsc
          (after_poll_recv once mpsc s (poll_recv once mpsc (record { first_sender = o }) s.shared))
  unfolding poll_recv
  poll_recv-Inv s (some tx) h = h
  poll_recv-Inv s none h =
      let r : Receiver once mpsc = record { first_sender = none } in
      let (c, st) = s.shared in
      subst
        (λ rcv. InvOf once mpsc (
          after_poll_recv once mpsc (record s { received = rcv })
            (after_recv once mpsc r st (mpsc.recv c))))
        (sym h.1.0)
        (recv-Inv c st s.waiters s.sent s.cancelers (mpsc.recv c) s.receiver
          (subst (λ rcv. Inv once mpsc (some r) s.shared s.waiters s.sent rcv) h.1.0 h)
          (mpsc.recv_law c))

  drop-Inv :
      (s : System once mpsc) (r : Receiver once mpsc)
      → Inv once mpsc (some r) s.shared s.waiters s.sent s.received
      → Inv once mpsc none (drop_receiver once mpsc r s.shared) s.waiters s.sent s.received
  unfolding drop_receiver
  drop-Inv s r h = (
    (mpsc.drop_receiver_law s.shared.0).2,
    Open-FirstOnly once mpsc r.first_sender (messages once mpsc (mpsc.queue s.shared.0)) s.sent
        s.received h.1,
  )

  -- The same messages once mpsc and waiters, with a channel that has changed nothing of them.
  same-Inv :
      (r : Option (Receiver once mpsc)) (c c' : mpsc.Channel) (st st' : once.Store)
      (ws : List (Waiter once mpsc)) (sent received : List T)
      → mpsc.queue c' ≡ mpsc.queue c
      → mpsc.closed c' ≡ mpsc.closed c
      → ((k : ℕ) → once.alive st' k ≡ once.alive st k)
      → Inv once mpsc r (c, st) ws sent received
      → Inv once mpsc r (c', st') ws sent received
  same-Inv none c c' st st' ws sent received q k a h = (k ∙ h.0, h.1)
  same-Inv (some r) c c' st st' ws sent received q k a h = (
    k ∙ h.0,
    subst (λ ps. Open once mpsc r.first_sender (messages once mpsc ps) sent received) (sym q) h.1,
    AllAlive-keep once mpsc (once.alive st) (once.alive st') ws (λ n e. a n ∙ e) h.2,
  )

  Step-Inv : {s t : System once mpsc} → Step once mpsc s t → InvOf once mpsc s → InvOf once mpsc t
  unfolding cancel new_payload clone poll_waiter
  Step-Inv {s} (by_cancel m n e) h =
      let (c, st) = s.shared in
      let (tx, rx, st') = once.channel st in
      let p : CancelPayload T once = record { message = m; dropped_sender = tx } in
      let l = once.channel_law st in
      cancel-Inv once mpsc s.receiver p rx c st st' s.waiters s.sent s.received s.cancelers
        (mpsc.send p c) h l.2 (ap (once.alive st') l.0 ∙ l.1) (mpsc.send_law p c)
  Step-Inv {s} (by_clone n e) h =
      let l = mpsc.clone_law s.shared.0 in
      same-Inv s.receiver s.shared.0 (mpsc.clone_sender s.shared.0) s.shared.1 s.shared.1 s.waiters
        s.sent s.received l.0 l.1 (λ k. refl) h
  Step-Inv {s} (by_drop n e) h =
      let l = mpsc.drop_sender_law s.shared.0 in
      same-Inv s.receiver s.shared.0 (mpsc.drop_sender s.shared.0) s.shared.1 s.shared.1 s.waiters
        s.sent s.received l.0 l.1 (λ k. refl) h
  Step-Inv {s} (by_recv r e) h =
      poll_recv-Inv s r.first_sender
        (subst (λ o. Inv once mpsc o s.shared s.waiters s.sent s.received) e h)
  Step-Inv {s} (by_drop_receiver r e) h =
      drop-Inv s r (subst (λ o. Inv once mpsc o s.shared s.waiters s.sent s.received) e h)
  Step-Inv {s} (by_drop_waiter w) h =
      let (c, st) = s.shared in
      same-Inv s.receiver c c st (once.drop_receiver w.dropped_receiver st) s.waiters s.sent
        s.received refl refl (once.drop_receiver_law w.dropped_receiver st) h
  Step-Inv {s} (by_wait w) h =
      let (c, st) = s.shared in
      same-Inv s.receiver c c st (once.poll w.dropped_receiver st).2 s.waiters s.sent s.received
        refl refl ((once.poll_law w.dropped_receiver st).1) h

  pub Reach-Inv :
      {s t : System once mpsc} → Reach once mpsc s t → InvOf once mpsc s → InvOf once mpsc t
  Reach-Inv here h = h
  Reach-Inv (next r x) h = Step-Inv x (Reach-Inv r h)

  pub init-Inv : (st : once.Store) → InvOf once mpsc (init once mpsc st)
  unfolding new_pair
  init-Inv st = (mpsc.new_law.1, (refl, ap (messages once mpsc) mpsc.new_law.0), tt)
