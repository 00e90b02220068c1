-- ===== src/CoopCancel/Results.antt =====
-- The promises of src/coop_cancel.rs to its clients.
use mathlib.Core.Path.{subst}
use cancel_safe_futures.Base.{
  ℕ, ◌≡◌, refl, ap, Bool, true, false, List, ◌∷◌, Option, none, some, Result, ok, err, Poll,
  pending, ready, is_some,
}
use cancel_safe_futures.CoopCancel.Channels.{Unbounded, Oneshot, Sends, Waits}
use cancel_safe_futures.CoopCancel.Defs.{
  Never, CancelPayload, Receiver, Waiter, Shared, new_payload, after_send, cancel, waited,
  poll_waiter,
}
use cancel_safe_futures.CoopCancel.System.{System, Reach, init}
use cancel_safe_futures.CoopCancel.Invariant.{FirstOnly, Open-FirstOnly, messages, AllAlive, Inv}
use cancel_safe_futures.CoopCancel.Safety.{Reach-Inv, init-Inv}

module _ {T : Type 0} (once : Oneshot Never) (mpsc : Unbounded (CancelPayload T once)) where
  Inv-FirstOnly :
      (r : Option (Receiver once mpsc)) (sh : Shared once mpsc) (ws : List (Waiter once mpsc))
      (sent received : List T)
      → Inv once mpsc r sh ws sent received
      → FirstOnly received sent
  Inv-FirstOnly none sh ws sent received h = h.1
  Inv-FirstOnly (some r) sh ws sent received h =
      Open-FirstOnly once mpsc r.first_sender (messages once mpsc (mpsc.queue sh.0)) sent received
        h.1

  -- In every reachable state `recv` has given at most one message, and that is the first message
  -- for which `cancel` succeeded.
  pub Reach-FirstOnly :
      (st : once.Store) {s : System once mpsc}
      → Reach once mpsc (init once mpsc st) s
      → FirstOnly s.received s.sent
  Reach-FirstOnly st {s} r =
      Inv-FirstOnly s.receiver s.shared s.waiters s.sent s.received
        (Reach-Inv once mpsc r (init-Inv once mpsc st))

  -- `cancel` fails with the message that it was given, or succeeds.
  abbrev pub Cancels : Bool → T → Result (Waiter once mpsc) T → Type 0
  Cancels listening m (ok w) = listening ≡ true
  Cancels listening m (err m') = (listening ≡ false) × (m' ≡ m)

  after_send-Cancels :
      (o : Option (Receiver once mpsc)) (p : CancelPayload T once) (rx : once.Receiver)
      (c : mpsc.Channel) (st st' : once.Store) (ws : List (Waiter once mpsc))
      (sent received : List T) (out : Result (Unit {0}) (CancelPayload T once) × mpsc.Channel)
      → Inv once mpsc o (c, st) ws sent received
      → Sends mpsc.queue mpsc.closed p c out
      → Cancels (is_some o) p.message (after_send once mpsc rx st' out).0
  unfolding after_send
  after_send-Cancels none p rx c st st' ws sent received (ok u, c') h l = cc (h.0)
  after_send-Cancels none p rx c st st' ws sent received (err q, c') h l =
      (refl, ap (λ (x : CancelPayload T once). x.message) l.1)
  after_send-Cancels (some r) p rx c st st' ws sent received (ok u, c') h l = refl
  after_send-Cancels (some r) p rx c st st' ws sent received (err q, c') h l = cc (h.0)

  -- In every reachable state a call of `cancel` succeeds exactly if the receiver has not been
  -- dropped, and gives the message back if it fails.
  pub cancel-Cancels :
      (st : once.Store) (m : T) {s : System once mpsc}
      → Reach once mpsc (init once mpsc st) s
      → Cancels (is_some s.receiver) m (cancel once mpsc m s.shared).0
  unfolding cancel new_payload
  cancel-Cancels st m {s} r =
      let (c, now) = s.shared in
      let (tx, rx, st') = once.channel now in
      let p : CancelPayload T once = record { message = m; dropped_sender = tx } in
      after_send-Cancels s.receiver p rx c now st' s.waiters s.sent s.received (mpsc.send p c)
        (Reach-Inv once mpsc r (init-Inv once mpsc st)) (mpsc.send_law p c)

  -- A waiter among those of a client.
  pub data IsAmong (w : Waiter once mpsc) : List (Waiter once mpsc) → Type 0 where
    first : {ws : List (Waiter once mpsc)} → IsAmong w (w ∷ ws)
    later :
        {v : Waiter once mpsc} {ws : List (Waiter once mpsc)} → IsAmong w ws → IsAmong w (v ∷ ws)

  AllAlive-IsAmong :
      (alive : ℕ → Bool) {w : Waiter once mpsc} {ws : List (Waiter once mpsc)}
      → IsAmong w ws
      → AllAlive once mpsc alive ws
      → alive (once.peer w.dropped_receiver) ≡ true
  AllAlive-IsAmong alive first h = h.0
  AllAlive-IsAmong alive (later i) h = AllAlive-IsAmong alive i h.1

  waited_lem :
      (alive : Bool) (r : Poll (Result Never (Unit {0})))
      → Waits alive r
      → alive ≡ true
      → waited once mpsc r ≡ pending
  waited_lem alive pending l h = refl
  waited_lem alive (ready (ok n)) l h = absurd n
  waited_lem alive (ready (err e)) l h = cc (l, h)

  -- A waiter that a successful `cancel` gave does not finish before the receiver has been dropped:
  -- in every reachable state with a receiver its polls are pending.
  pub poll_waiter-pending :
      (st : once.Store) {s : System once mpsc} (w : Waiter once mpsc) (r : Receiver once mpsc)
      → Reach once mpsc (init once mpsc st) s
      → s.receiver ≡ some r
      → IsAmong w s.waiters
      → (poll_waiter once mpsc w s.shared.1).0 ≡ pending
  unfolding poll_waiter
  poll_waiter-pending st {s} w r reach e i =
      let h =
        subst (λ o. Inv once mpsc o s.shared s.waiters s.sent s.received) e
          (Reach-Inv once mpsc reach (init-Inv once mpsc st)) in
      let (out, rx, st') = once.poll w.dropped_receiver s.shared.1 in
      waited_lem (once.alive s.shared.1 (once.peer w.dropped_receiver)) out
        (once.poll_law w.dropped_receiver s.shared.1).2
        (AllAlive-IsAmong (once.alive s.shared.1) i h.2)
