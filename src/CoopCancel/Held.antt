-- ===== src/CoopCancel/Held.antt =====
-- src/coop_cancel.rs: where the sender of a waiter is, from the `cancel` that made it to the drop
-- of the receiver.
use mathlib.Core.Path.{subst}
use cancel_safe_futures.Base.{
  ℕ, ◌≡◌, refl, ◌∙◌, sym, ◌⊎◌, inl, inr, List, [], ◌∷◌, ◌++◌, Option, none, some, Result, ok, err,
  Poll, pending, ready,
}
use cancel_safe_futures.CoopCancel.Channels.{Unbounded, Oneshot, Sends, Receives}
use cancel_safe_futures.CoopCancel.Defs.{
  Never, CancelPayload, Receiver, Waiter, Shared, new_payload, after_send, cancel, clone,
  after_recv, poll_recv, poll_waiter,
}
use cancel_safe_futures.CoopCancel.System.{
  System, after_cancel, after_poll_recv, Step, by_cancel, by_clone, by_drop, by_recv,
  by_drop_receiver, by_wait, by_drop_waiter, Reach, here, next,
}
use cancel_safe_futures.CoopCancel.Results.{IsAmong, first, later}

module _ {T : Type 0} (once : Oneshot Never) (mpsc : Unbounded (CancelPayload T once)) where
  abbrev pub InQueue : ℕ → List (CancelPayload T once) → Type 0
  InQueue k [] = ⊥
  InQueue k (p ∷ ps) = (once.number p.dropped_sender ≡ k) ⊎ InQueue k ps

  abbrev pub IsSender : ℕ → Option once.Sender → Type 0
  IsSender k none = ⊥
  IsSender k (some tx) = once.number tx ≡ k

  -- Each waiter's sender is in the queue, or is the first one.
  abbrev pub Owned :
      Option once.Sender → List (CancelPayload T once) → List (Waiter once mpsc) → Type 0
  Owned o q [] = Unit
  Owned o q (w ∷ ws) =
      (IsSender (once.peer w.dropped_receiver) o ⊎ InQueue (once.peer w.dropped_receiver) q)
      × Owned o q ws

  abbrev pub Held :
      Option (Receiver once mpsc) → Shared once mpsc → List (Waiter once mpsc) → Type 0
  Held none (c, st) ws = Unit
  Held (some r) (c, st) ws = Owned r.first_sender (mpsc.queue c) ws

  Owned-map :
      (o o' : Option once.Sender) (q q' : List (CancelPayload T once))
      (ws : List (Waiter once mpsc))
      → ((k : ℕ) → IsSender k o ⊎ InQueue k q → IsSender k o' ⊎ InQueue k q')
      → Owned o q ws
      → Owned o' q' ws
  Owned-map o o' q q' [] f h = tt
  Owned-map o o' q q' (w ∷ ws) f h =
      (f (once.peer w.dropped_receiver) h.0, Owned-map o o' q q' ws f h.1)

  InQueue-append :
      (k : ℕ) (q : List (CancelPayload T once)) (p : CancelPayload T once)
      → InQueue k q
      → InQueue k (q ++ p ∷ [])
  InQueue-append k [] p h = absurd h
  InQueue-append k (x ∷ q) p (inl e) = inl e
  InQueue-append k (x ∷ q) p (inr h) = inr (InQueue-append k q p h)

  InQueue-last :
      (k : ℕ) (q : List (CancelPayload T once)) (p : CancelPayload T once)
      → once.number p.dropped_sender ≡ k
      → InQueue k (q ++ p ∷ [])
  InQueue-last k [] p e = inl e
  InQueue-last k (x ∷ q) p e = inr (InQueue-last k q p e)

  append-IsSender :
      (k : ℕ) (o : Option once.Sender) (q : List (CancelPayload T once)) (p : CancelPayload T once)
      → IsSender k o ⊎ InQueue k q
      → IsSender k o ⊎ InQueue k (q ++ p ∷ [])
  append-IsSender k o q p (inl e) = inl e
  append-IsSender k o q p (inr h) = inr (InQueue-append k q p h)

  take-IsSender :
      (k : ℕ) (q : List (CancelPayload T once)) (p : CancelPayload T once)
      → IsSender k none ⊎ InQueue k (p ∷ q)
      → IsSender k (some p.dropped_sender) ⊎ InQueue k q
  take-IsSender k q p (inl e) = absurd e
  take-IsSender k q p (inr (inl e)) = inl e
  take-IsSender k q p (inr (inr h)) = inr h

  cancel-Held :
      (r : Option (Receiver once mpsc)) (p : CancelPayload T once) (rx : once.Receiver)
      (c : mpsc.Channel) (st st' : once.Store) (ws : List (Waiter once mpsc))
      (sent received : List T) (n : ℕ)
      (out : Result (Unit {0}) (CancelPayload T once) × mpsc.Channel)
      → Held r (c, st) ws
      → once.peer rx ≡ once.number p.dropped_sender
      → Sends mpsc.queue mpsc.closed p c out
      → let s : System once mpsc = record {
        shared = (c, st);
        cancelers = n;
        receiver = r;
        waiters = ws;
        sent = sent;
        received = received;
      } in
        let t = after_cancel once mpsc s p.message (after_send once mpsc rx st' out) in
        Held t.receiver t.shared t.waiters
  unfolding after_send
  cancel-Held none p rx c st st' ws sent received n (ok u, c') h e l = tt
  cancel-Held none p rx c st st' ws sent received n (err q, c') h e l = tt
  cancel-Held (some r) p rx c st st' ws sent received n (err q, c') h e l =
      subst (λ ps. Owned r.first_sender ps ws) (sym l.2) h
  cancel-Held (some r) p rx c st st' ws sent received n (ok u, c') h e l =
      let q = mpsc.queue c in
      subst (λ ps. Owned r.first_sender ps (record { dropped_receiver = rx } ∷ ws)) (sym l.1)
        (
          inr (InQueue-last (once.peer rx) q p (sym e)),
          Owned-map r.first_sender r.first_sender q (q ++ p ∷ []) ws
              (λ k. append-IsSender k r.first_sender q p) h,
        )

  recv-Held :
      (s : System once mpsc) (out : Poll (Option (CancelPayload T once)) × mpsc.Channel)
      → Owned none (mpsc.queue s.shared.0) s.waiters
      → Receives mpsc.queue mpsc.closed s.shared.0 out
      → let t =
          after_poll_recv once mpsc s
            (after_recv once mpsc (record { first_sender = none }) s.shared.1 out) in
        Held t.receiver t.shared t.waiters
  unfolding after_recv
  recv-Held s (pending, c') h l = subst (λ ps. Owned none ps s.waiters) (sym l.0) h
  recv-Held s (ready none, c') h l = subst (λ ps. Owned none ps s.waiters) (l.0 ∙ sym l.1) h
  recv-Held s (ready (some p), c') h l =
      Owned-map none (some p.dropped_sender) (p ∷ mpsc.queue c') (mpsc.queue c') s.waiters
        (λ k. take-IsSender k (mpsc.queue c') p) (subst (λ ps. Owned none ps s.waiters) l.0 h)

  poll_recv-Held :
      (s : System once mpsc) (o : Option once.Sender)
      → Owned o (mpsc.queue s.shared.0) s.waiters
      → let t =
          after_poll_recv once mpsc s
            (poll_recv once mpsc (record { first_sender = o }) s.shared) in
        Held t.receiver t.shared t.waiters
  unfolding poll_recv
  poll_recv-Held s (some tx) h = h
  poll_recv-Held s none h = recv-Held s (mpsc.recv s.shared.0) h (mpsc.recv_law s.shared.0)

  same-Held :
      (r : Option (Receiver once mpsc)) (c c' : mpsc.Channel) (st st' : once.Store)
      (ws : List (Waiter once mpsc))
      → mpsc.queue c' ≡ mpsc.queue c
      → Held r (c, st) ws
      → Held r (c', st') ws
  same-Held none c c' st st' ws q h = tt
  same-Held (some r) c c' st st' ws q h = subst (λ ps. Owned r.first_sender ps ws) (sym q) h

  Step-Held :
      {s t : System once mpsc}
      → Step once mpsc s t
      → Held s.receiver s.shared s.waiters
      → Held t.receiver t.shared t.waiters
  unfolding cancel new_payload clone
  Step-Held {s} (by_cancel m n e) h =
      let (c, st) = s.shared in
      let (tx, rx, st') = once.channel st in
      let p : CancelPayload T once = record { message = m; dropped_sender = tx } in
      cancel-Held s.receiver p rx c st st' s.waiters s.sent s.received s.cancelers (mpsc.send p c) h
        (once.channel_law st).0 (mpsc.send_law p c)
  Step-Held {s} (by_clone n e) h =
      let (c, st) = s.shared in
      same-Held s.receiver c (mpsc.clone_sender c) st st s.waiters (mpsc.clone_law c).0 h
  Step-Held {s} (by_drop n e) h =
      let (c, st) = s.shared in
      same-Held s.receiver c (mpsc.drop_sender c) st st s.waiters (mpsc.drop_sender_law c).0 h
  Step-Held {s} (by_recv r e) h =
      poll_recv-Held s r.first_sender (subst (λ o. Held o s.shared s.waiters) e h)
  Step-Held {s} (by_drop_receiver r e) h = tt
  Step-Held {s} (by_drop_waiter w) h =
      let (c, st) = s.shared in
      same-Held s.receiver c c st (once.drop_receiver w.dropped_receiver st) s.waiters refl h
  Step-Held {s} (by_wait w) h =
      let (c, st) = s.shared in
      same-Held s.receiver c c st (poll_waiter once mpsc w st).2 s.waiters refl h

  pub Reach-Held :
      {s t : System once mpsc}
      → Reach once mpsc s t
      → Held s.receiver s.shared s.waiters
      → Held t.receiver t.shared t.waiters
  Reach-Held here h = h
  Reach-Held (next r x) h = Step-Held x (Reach-Held r h)

  pub Owned-IsAmong :
      (o : Option once.Sender) (q : List (CancelPayload T once)) {w : Waiter once mpsc}
      {ws : List (Waiter once mpsc)}
      → IsAmong once mpsc w ws
      → Owned o q ws
      → IsSender (once.peer w.dropped_receiver) o ⊎ InQueue (once.peer w.dropped_receiver) q
  Owned-IsAmong o q first h = h.0
  Owned-IsAmong o q (later i) h = Owned-IsAmong o q i h.1
