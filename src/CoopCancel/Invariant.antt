-- ===== src/CoopCancel/Invariant.antt =====
-- The invariant of src/coop_cancel.rs, and that a call of `cancel` keeps it.
use mathlib.Core.Path.{subst}
use cancel_safe_futures.Base.{
  ℕ, ◌≡◌, refl, ap, ◌∙◌, sym, Bool, true, false, List, [], ◌∷◌, ◌++◌, Option, none, some, Result,
  ok, err,
}
use cancel_safe_futures.CoopCancel.Channels.{Unbounded, Oneshot, Sends}
use cancel_safe_futures.CoopCancel.Defs.{Never, CancelPayload, Receiver, Waiter, Shared, after_send}
use cancel_safe_futures.CoopCancel.System.{System, after_cancel}

-- At most one message was received, and it is the first that was sent.
abbrev pub FirstOnly : {T : Type 0} → List T → List T → Type 0
FirstOnly [] sent = Unit
FirstOnly (m ∷ []) (n ∷ sent) = m ≡ n
FirstOnly _ _ = ⊥

-- One message was received; the others that were sent are in the queue.
abbrev pub IsFirst : {T : Type 0} → List T → List T → List T → Type 0
IsFirst (m ∷ []) queue sent = sent ≡ m ∷ queue
IsFirst _ queue sent = ⊥

module _ {T : Type 0} (once : Oneshot Never) (mpsc : Unbounded (CancelPayload T once)) where
  abbrev pub messages : List (CancelPayload T once) → List T
  messages [] = []
  messages (p ∷ ps) = p.message ∷ messages ps

  -- The waiters' senders have not been dropped.
  abbrev pub AllAlive : (ℕ → Bool) → List (Waiter once mpsc) → Type 0
  AllAlive alive [] = Unit
  AllAlive alive (w ∷ ws) = (alive (once.peer w.dropped_receiver) ≡ true) × AllAlive alive ws

  abbrev pub Open : Option once.Sender → List T → List T → List T → Type 0
  Open none queue sent received = (received ≡ []) × (queue ≡ sent)
  Open (some tx) queue sent received = IsFirst received queue sent

  abbrev pub Inv :
      Option (Receiver once mpsc)
      → Shared once mpsc
      → List (Waiter once mpsc)
      → List T
      → List T
      → Type 0
  Inv none (c, st) ws sent received = (mpsc.closed c ≡ true) × FirstOnly received sent
  Inv (some r) (c, st) ws sent received =
      (mpsc.closed c ≡ false)
      × Open r.first_sender (messages (mpsc.queue c)) sent received
      × AllAlive (once.alive st) ws

  abbrev pub InvOf : System once mpsc → Type 0
  InvOf s = Inv s.receiver s.shared s.waiters s.sent s.received

  pub AllAlive-keep :
      (old new : ℕ → Bool) (ws : List (Waiter once mpsc))
      → ((k : ℕ) → old k ≡ true → new k ≡ true)
      → AllAlive old ws
      → AllAlive new ws
  AllAlive-keep old new [] keep h = tt
  AllAlive-keep old new (w ∷ ws) keep h =
      (keep (once.peer w.dropped_receiver) h.0, AllAlive-keep old new ws keep h.1)

  messages-append :
      (q : List (CancelPayload T once)) (p : CancelPayload T once)
      → messages (q ++ p ∷ []) ≡ messages q ++ p.message ∷ []
  messages-append [] p = refl
  messages-append (x ∷ q) p = ap (λ ms. x.message ∷ ms) (messages-append q p)

  Open-sent :
      (o : Option once.Sender) (q sent received : List T) (m : T)
      → Open o q sent received
      → Open o (q ++ m ∷ []) (sent ++ m ∷ []) received
  Open-sent none q sent received m h = (h.0, ap (λ ms. ms ++ m ∷ []) h.1)
  Open-sent (some tx) q sent [] m h = h
  Open-sent (some tx) q sent (x ∷ []) m h = ap (λ ms. ms ++ m ∷ []) h
  Open-sent (some tx) q sent (x ∷ y ∷ rcv) m h = h

  pub Open-FirstOnly :
      (o : Option once.Sender) (q sent received : List T)
      → Open o q sent received
      → FirstOnly received sent
  Open-FirstOnly none q sent received h = subst (λ r. FirstOnly r sent) (sym h.0) tt
  Open-FirstOnly (some tx) q sent [] h = tt
  Open-FirstOnly (some tx) q [] (x ∷ []) h = cc
  Open-FirstOnly (some tx) q (n ∷ sent) (x ∷ []) h = cc
  Open-FirstOnly (some tx) q sent (x ∷ y ∷ rcv) h = absurd h

  pub cancel-Inv :
      (r : Option (Receiver once mpsc)) (p : CancelPayload T once) (rx : once.Receiver)
      (c : mpsc.Channel) (st st' : once.Store) (ws : List (Waiter once mpsc))
      (sent received : List T) (n : ℕ)
      (out : Result (Unit {0}) (CancelPayload T once) × mpsc.Channel)
      → Inv r (c, st) ws sent received
      → ((k : ℕ) → once.alive st k ≡ true → once.alive st' k ≡ true)
      → once.alive st' (once.peer rx) ≡ true
      → Sends mpsc.queue mpsc.closed p c out
      → let s : System once mpsc = record {
        shared = (c, st);
        cancelers = n;
        receiver = r;
        waiters = ws;
        sent = sent;
        received = received;
      } in
        InvOf (after_cancel once mpsc s p.message (after_send once mpsc rx st' out))
  unfolding after_send
  cancel-Inv none p rx c st st' ws sent received n (ok u, c') h keep on l = cc (h.0)
  cancel-Inv none p rx c st st' ws sent received n (err q, c') h keep on l = (l.3, h.1)
  cancel-Inv (some r) p rx c st st' ws sent received n (err q, c') h keep on l = cc (h.0)
  cancel-Inv (some r) p rx c st st' ws sent received n (ok u, c') h keep on l = (
    l.2,
    subst (λ q. Open r.first_sender q (sent ++ p.message ∷ []) received)
        (sym (ap messages l.1 ∙ messages-append (mpsc.queue c) p))
        (Open-sent r.first_sender (messages (mpsc.queue c)) sent received p.message h.1),
    (on, AllAlive-keep (once.alive st) (once.alive st') ws keep h.2),
  )
