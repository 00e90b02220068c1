-- ===== src/CoopCancel/Settled.antt =====
-- src/coop_cancel.rs: without a receiver no waiter has its sender, and which steps keep this.
use cancel_safe_futures.Base.{
  ℕ, ◌<◌, ◌≡◌, ◌∙◌, refl, true, false, List, [], ◌∷◌, Option, none, some, is_some, Result, ok, err,
  Poll, pending, ready, arith,
}
use cancel_safe_futures.CoopCancel.Channels.{Unbounded, Oneshot, Sends}
use cancel_safe_futures.CoopCancel.Defs.{
  Never, CancelPayload, Receiver, Waiter, Shared, after_send, drop_payloads, drop_first,
  drop_receiver, poll_recv, after_recv,
}
use cancel_safe_futures.CoopCancel.System.{System, after_cancel, after_poll_recv}
use cancel_safe_futures.CoopCancel.Invariant.{Inv}
use cancel_safe_futures.CoopCancel.Results.{IsAmong, first, later}

module _ {T : Type 0} (once : Oneshot Never) (mpsc : Unbounded (CancelPayload T once)) where
  -- `P` of the channel of each waiter.
  abbrev pub Each : (ℕ → Type 0) → List (Waiter once mpsc) → Type 0
  Each P [] = Unit
  Each P (w ∷ ws) = P (once.peer w.dropped_receiver) × Each P ws

  Each-map :
      {P Q : ℕ → Type 0} (ws : List (Waiter once mpsc))
      → ((k : ℕ) → P k → Q k)
      → Each P ws
      → Each Q ws
  Each-map [] f h = tt
  Each-map (w ∷ ws) f h = (f (once.peer w.dropped_receiver) h.0, Each-map ws f h.1)

  pub Each-IsAmong :
      (P : ℕ → Type 0) {w : Waiter once mpsc} {ws : List (Waiter once mpsc)}
      → IsAmong once mpsc w ws
      → Each P ws
      → P (once.peer w.dropped_receiver)
  Each-IsAmong P first h = h.0
  Each-IsAmong P (later i) h = Each-IsAmong P i h.1

  pub Each-intro :
      (P : ℕ → Type 0) (ws : List (Waiter once mpsc))
      → ((w : Waiter once mpsc) → IsAmong once mpsc w ws → P (once.peer w.dropped_receiver))
      → Each P ws
  Each-intro P [] f = tt
  Each-intro P (w ∷ ws) f = (f w first, Each-intro P ws (λ v i. f v (later i)))

  -- The channel `k` has been made, and without a receiver its sender is gone.
  abbrev pub Settled : Option (Receiver once mpsc) → once.Store → ℕ → Type 0
  Settled o st k = (k < once.made st) × (is_some o ≡ false → once.alive st k ≡ false)

  abbrev pub SettledOf : System once mpsc → Type 0
  SettledOf s = Each (Settled s.receiver s.shared.1) s.waiters

  pub Inv-closed :
      (o : Option (Receiver once mpsc)) (sh : Shared once mpsc) (ws : List (Waiter once mpsc))
      (sent received : List T)
      → Inv once mpsc o sh ws sent received
      → is_some o ≡ false
      → mpsc.closed sh.0 ≡ true
  Inv-closed none sh ws sent received h e = h.0
  Inv-closed (some r) sh ws sent received h e = cc

  -- The ends of a channel that are dropped by a `cancel` that fails.
  refused :
      (o : Option (Receiver once mpsc)) (rx : once.Receiver) (tx : once.Sender) (st : once.Store)
      (k : ℕ)
      → Settled o st k
      → Settled o (once.drop_receiver rx (once.drop_sender tx st)) k
  refused o rx tx st k h = (
    omega (
      arith,
      h.0,
      once.drop_receiver_made rx (once.drop_sender tx st),
      once.drop_sender_made tx st,
    ),
    λ off.
        once.drop_receiver_law rx (once.drop_sender tx st) k
        ∙ (once.drop_sender_law tx st).1 k (h.1 off),
  )

  pub cancel-Settled :
      (o : Option (Receiver once mpsc)) (p : CancelPayload T once) (rx : once.Receiver)
      (c : mpsc.Channel) (st st' : once.Store) (ws : List (Waiter once mpsc))
      (sent received : List T) (n : ℕ)
      (out : Result (Unit {0}) (CancelPayload T once) × mpsc.Channel)
      → (is_some o ≡ false → mpsc.closed c ≡ true)
      → once.peer rx < once.made st'
      → ((k : ℕ) → Settled o st k → Settled o st' k)
      → Sends mpsc.queue mpsc.closed p c out
      → Each (Settled o st) ws
      → let s : System once mpsc = record {
        shared = (c, st);
        cancelers = n;
        receiver = o;
        waiters = ws;
        sent = sent;
        received = received;
      } in
        SettledOf (after_cancel once mpsc s p.message (after_send once mpsc rx st' out))
  unfolding after_send
  cancel-Settled o p rx c st st' ws sent received n (ok u, c') shut new keep l h =
      ((new, λ off. let on = shut off in let open_ = l.0 in cc), Each-map ws keep h)
  cancel-Settled o p rx c st st' ws sent received n (err q, c') shut new keep l h =
      Each-map ws (λ k e. refused o rx q.dropped_sender st' k (keep k e)) h

  drop_payloads-made :
      (ps : List (CancelPayload T once)) (st : once.Store)
      → once.made (drop_payloads once mpsc ps st) ≡ once.made st
  drop_payloads-made [] st = refl
  drop_payloads-made (p ∷ ps) st =
      drop_payloads-made ps (once.drop_sender p.dropped_sender st)
      ∙ once.drop_sender_made p.dropped_sender st

  drop_first-made :
      (o : Option once.Sender) (st : once.Store)
      → once.made (drop_first once mpsc o st) ≡ once.made st
  drop_first-made none st = refl
  drop_first-made (some tx) st = once.drop_sender_made tx st

  pub drop_receiver-made :
      (r : Receiver once mpsc) (sh : Shared once mpsc)
      → once.made (drop_receiver once mpsc r sh).1 ≡ once.made sh.1
  unfolding drop_receiver
  drop_receiver-made r (c, st) =
      drop_first-made r.first_sender (drop_payloads once mpsc (mpsc.drop_receiver c).0 st)
      ∙ drop_payloads-made (mpsc.drop_receiver c).0 st

  -- A store in which no channel has changed.
  pub same-Settled :
      (o : Option (Receiver once mpsc)) (st st' : once.Store) (ws : List (Waiter once mpsc))
      → once.made st' ≡ once.made st
      → ((k : ℕ) → once.alive st' k ≡ once.alive st k)
      → Each (Settled o st) ws
      → Each (Settled o st') ws
  same-Settled o st st' ws m a h =
      Each-map {P = Settled o st} {Q = Settled o st'} ws
        (λ k e. (omega (arith, e.0, m), λ off. a k ∙ e.1 off)) h

  recv-Settled :
      (s : System once mpsc) (r : Receiver once mpsc)
      (out : Poll (Option (CancelPayload T once)) × mpsc.Channel)
      → Each (Settled (some r) s.shared.1) s.waiters
      → SettledOf (
          after_poll_recv once mpsc s
            (after_recv once mpsc (record { first_sender = none }) s.shared.1 out))
  unfolding after_recv
  recv-Settled s r (pending, c) h = h
  recv-Settled s r (ready none, c) h = h
  recv-Settled s r (ready (some p), c) h = h

  -- A poll of `recv` leaves a receiver, and the store as it was.
  pub poll_recv-Settled :
      (s : System once mpsc) (o : Option once.Sender) (r : Receiver once mpsc)
      → Each (Settled (some r) s.shared.1) s.waiters
      → SettledOf
          (after_poll_recv once mpsc s (poll_recv once mpsc (record { first_sender = o }) s.shared))
  unfolding poll_recv
  poll_recv-Settled s (some tx) r h = h
  poll_recv-Settled s none r h = recv-Settled s r (mpsc.recv s.shared.0) h
