-- ===== src/CoopCancel/Told.antt =====
-- src/coop_cancel.rs: what a waiter is told, at any time.
use cancel_safe_futures.Base.{
  ◌≡◌, ◌≢◌, refl, ap, false, Option, none, some, is_some, Result, ok, err, Poll, pending, ready,
  arith,
}
use mathlib.Core.Path.{subst}
use cancel_safe_futures.CoopCancel.Channels.{Unbounded, Oneshot}
use cancel_safe_futures.CoopCancel.Defs.{
  Never, CancelPayload, Receiver, Waiter, new_payload, cancel, clone, drop_receiver, waited,
  poll_waiter,
}
use cancel_safe_futures.CoopCancel.System.{
  System, Step, by_cancel, by_clone, by_drop, by_recv, by_drop_receiver, by_wait, by_drop_waiter,
  Reach, here, next, init,
}
use cancel_safe_futures.CoopCancel.Safety.{Reach-Inv, init-Inv}
use cancel_safe_futures.CoopCancel.Results.{IsAmong, poll_waiter-pending}
use cancel_safe_futures.CoopCancel.Release.{drop_receiver-alive}
use cancel_safe_futures.CoopCancel.Settled.{
  Each, Each-IsAmong, Each-intro, Settled, SettledOf, Inv-closed, cancel-Settled,
  drop_receiver-made, same-Settled, poll_recv-Settled,
}

module _ {T : Type 0} (once : Oneshot Never) (mpsc : Unbounded (CancelPayload T once)) where
  drop-Settled :
      (st : once.Store) {s : System once mpsc} (r : Receiver once mpsc)
      → Reach once mpsc (init once mpsc st) s
      → s.receiver ≡ some r
      → SettledOf once mpsc s
      → Each once mpsc (Settled once mpsc none (drop_receiver once mpsc r s.shared).1) s.waiters
  drop-Settled st {s} r reach e h =
      let after = (drop_receiver once mpsc r s.shared).1 in
      Each-intro once mpsc (Settled once mpsc none after) s.waiters (λ w i. (
        omega (
          arith,
          (Each-IsAmong once mpsc (Settled once mpsc s.receiver s.shared.1) i h).0,
          drop_receiver-made once mpsc r s.shared,
        ),
        λ off. drop_receiver-alive once mpsc st w r reach e i,
      ))

  Step-Settled :
      (st : once.Store) {s t : System once mpsc}
      → Reach once mpsc (init once mpsc st) s
      → Step once mpsc s t
      → SettledOf once mpsc s
      → SettledOf once mpsc t
  unfolding cancel new_payload clone poll_waiter
  Step-Settled first_store {s} reach (by_cancel m n e) h =
      let (c, st) = s.shared in
      let (tx, rx, st') = once.channel st in
      let p : CancelPayload T once = record { message = m; dropped_sender = tx } in
      let made = once.channel_made st in
      cancel-Settled once mpsc s.receiver p rx c st st' s.waiters s.sent s.received s.cancelers
        (mpsc.send p c)
        (Inv-closed once mpsc s.receiver s.shared s.waiters s.sent s.received
          (Reach-Inv once mpsc reach (init-Inv once mpsc first_store)))
        (omega (arith, (once.channel_law st).0, made.0, made.1))
        (λ k old. (omega (arith, old.0, made.1), λ off. made.2 k old.0 (old.1 off)))
        (mpsc.send_law p c) h
  Step-Settled st {s} reach (by_clone n e) h = h
  Step-Settled st {s} reach (by_drop n e) h = h
  Step-Settled st {s} reach (by_recv r e) h =
      poll_recv-Settled once mpsc s r.first_sender r
        (subst (λ o. Each once mpsc (Settled once mpsc o s.shared.1) s.waiters) e h)
  Step-Settled st {s} reach (by_drop_receiver r e) h = drop-Settled st r reach e h
  Step-Settled st {s} reach (by_wait w) h =
      let (c, now) = s.shared in
      same-Settled once mpsc s.receiver now (once.poll w.dropped_receiver now).2 s.waiters
        (once.poll_made w.dropped_receiver now) (once.poll_law w.dropped_receiver now).1 h
  Step-Settled st {s} reach (by_drop_waiter w) h =
      let (c, now) = s.shared in
      same-Settled once mpsc s.receiver now (once.drop_receiver w.dropped_receiver now) s.waiters
        (once.drop_receiver_made w.dropped_receiver now)
        (once.drop_receiver_law w.dropped_receiver now) h

  Reach-Settled :
      (st : once.Store) {s : System once mpsc}
      → Reach once mpsc (init once mpsc st) s
      → SettledOf once mpsc s
  Reach-Settled st here = tt
  Reach-Settled st (next r x) = Step-Settled st r x (Reach-Settled st r)

  -- A one-shot receiver whose sender is gone is not pending.
  abbrev pub Prompt : Type 0
  Prompt =
      (rx : once.Receiver) (s : once.Store)
      → once.alive s (once.peer rx) ≡ false
      → (once.poll rx s).0 ≢ pending

  waited_lem : (r : Poll (Result Never (Unit {0}))) → r ≢ pending → waited once mpsc r ≡ ready tt
  waited_lem pending h = absurd (h refl)
  waited_lem (ready (ok n)) h = absurd n
  waited_lem (ready (err e)) h = refl

  -- What a waiter is told while the receiver is `o`.
  abbrev pub told : Option (Receiver once mpsc) → Poll (Unit {0})
  told none = ready tt
  told (some r) = pending

  told_lem :
      Prompt
      → (st : once.Store) {s : System once mpsc} (w : Waiter once mpsc)
        (o : Option (Receiver once mpsc))
      → Reach once mpsc (init once mpsc st) s
      → IsAmong once mpsc w s.waiters
      → s.receiver ≡ o
      → (poll_waiter once mpsc w s.shared.1).0 ≡ told o
  unfolding poll_waiter
  told_lem prompt st {s} w (some r) reach i e = poll_waiter-pending once mpsc st w r reach e i
  told_lem prompt st {s} w none reach i e =
      let known =
        Each-IsAmong once mpsc (Settled once mpsc s.receiver s.shared.1) i
          (Reach-Settled st reach) in
      waited_lem (once.poll w.dropped_receiver s.shared.1).0
        (prompt w.dropped_receiver s.shared.1 (known.1 (ap is_some e)))

  -- A waiter is told at once, and never too early: in every reachable state a poll of a waiter that
  -- a successful `cancel` gave is ready if the receiver has been dropped, however long ago, and
  -- pending if it has not, whether its message was received, is queued, or was dropped with the
  -- receiver. This holds if a one-shot receiver is not pending when its sender is gone.
  pub poll_waiter-told :
      Prompt
      → (st : once.Store) {s : System once mpsc} (w : Waiter once mpsc)
      → Reach once mpsc (init once mpsc st) s
      → IsAmong once mpsc w s.waiters
      → (poll_waiter once mpsc w s.shared.1).0 ≡ told s.receiver
  poll_waiter-told prompt st {s} w reach i = told_lem prompt st w s.receiver reach i refl
