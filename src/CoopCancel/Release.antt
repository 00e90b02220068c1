-- ===== src/CoopCancel/Release.antt =====
-- src/coop_cancel.rs: which drop releases the waiters.
use mathlib.Core.Path.{subst}
use cancel_safe_futures.Base.{ℕ, ◌≡◌, sym, ◌⊎◌, inl, inr, false, List, [], ◌∷◌, Option, none, some}
use cancel_safe_futures.CoopCancel.Channels.{Unbounded, Oneshot}
use cancel_safe_futures.CoopCancel.Defs.{
  Never, CancelPayload, Receiver, Waiter, new_pair, drop_payloads, drop_first, drop_receiver,
}
use cancel_safe_futures.CoopCancel.System.{System, Reach, init}
use cancel_safe_futures.CoopCancel.Results.{IsAmong}
use cancel_safe_futures.CoopCancel.Held.{InQueue, IsSender, Held, Reach-Held, Owned-IsAmong}

module _ {T : Type 0} (once : Oneshot Never) (mpsc : Unbounded (CancelPayload T once)) where
  gone-stays :
      (ps : List (CancelPayload T once)) (st : once.Store) (k : ℕ)
      → once.alive st k ≡ false
      → once.alive (drop_payloads once mpsc ps st) k ≡ false
  gone-stays [] st k h = h
  gone-stays (p ∷ ps) st k h =
      gone-stays ps (once.drop_sender p.dropped_sender st) k
        ((once.drop_sender_law p.dropped_sender st).1 k h)

  drop_payloads_lem :
      (ps : List (CancelPayload T once)) (st : once.Store) (k : ℕ)
      → InQueue once mpsc k ps
      → once.alive (drop_payloads once mpsc ps st) k ≡ false
  drop_payloads_lem [] st k h = absurd h
  drop_payloads_lem (p ∷ ps) st k (inl e) =
      let st' = once.drop_sender p.dropped_sender st in
      gone-stays ps st' k
        (subst (λ n. once.alive st' n ≡ false) e (once.drop_sender_law p.dropped_sender st).0)
  drop_payloads_lem (p ∷ ps) st k (inr h) =
      drop_payloads_lem ps (once.drop_sender p.dropped_sender st) k h

  drop_first_lem :
      (o : Option once.Sender) (ps : List (CancelPayload T once)) (st : once.Store) (k : ℕ)
      → IsSender once mpsc k o ⊎ InQueue once mpsc k ps
      → once.alive (drop_first once mpsc o (drop_payloads once mpsc ps st)) k ≡ false
  drop_first_lem none ps st k (inl e) = absurd e
  drop_first_lem none ps st k (inr h) = drop_payloads_lem ps st k h
  drop_first_lem (some tx) ps st k (inl e) =
      let st' = drop_payloads once mpsc ps st in
      subst (λ n. once.alive (once.drop_sender tx st') n ≡ false) e (once.drop_sender_law tx st').0
  drop_first_lem (some tx) ps st k (inr h) =
      (once.drop_sender_law tx (drop_payloads once mpsc ps st)).1 k (drop_payloads_lem ps st k h)

  -- In a reachable state with a receiver, dropping it drops the sender of every waiter that a
  -- successful `cancel` gave, whether its message was received or is still queued.
  pub drop_receiver-alive :
      (st : once.Store) {s : System once mpsc} (w : Waiter once mpsc) (r : Receiver once mpsc)
      → Reach once mpsc (init once mpsc st) s
      → s.receiver ≡ some r
      → IsAmong once mpsc w s.waiters
      → once.alive (drop_receiver once mpsc r s.shared).1 (once.peer w.dropped_receiver) ≡ false
  unfolding drop_receiver new_pair
  drop_receiver-alive st {s} w r reach e i =
      let (c, now) = s.shared in
      let held =
        subst (λ o. Held once mpsc o s.shared s.waiters) e (Reach-Held once mpsc reach tt) in
      subst
        (λ ps.
          once.alive (drop_first once mpsc r.first_sender (drop_payloads once mpsc ps now))
            (once.peer w.dropped_receiver)
          ≡ false)
        (sym (mpsc.drop_receiver_law c).0)
        (drop_first_lem r.first_sender (mpsc.queue c) now (once.peer w.dropped_receiver)
          (Owned-IsAmong once mpsc r.first_sender (mpsc.queue c) i held))
