-- ===== src/CoopCancel/Samples.antt =====
-- Channels on lists and numbers that keep the laws of Channels.
use cancel_safe_futures.Base.{
  ◌<◌, ℕ, zero, suc, inr, ◌≡◌, refl, Bool, true, false, if◌then◌else◌, ◌==◌, List, [], ◌∷◌, ◌++◌,
  Option, none, some, Result, ok, err, Poll, pending, ready, arith,
}
use cancel_safe_futures.CoopCancel.Channels.{Unbounded, Oneshot, Sends, Receives, Ends, Waits}
use cancel_safe_futures.CoopCancel.Defs.{Never, CancelPayload}

abbrev pub Numbers : Type 0
Numbers = ℕ × (ℕ → Bool)

abbrev pub poll_number : ℕ → Numbers → Poll (Result Never (Unit {0})) × ℕ × Numbers
poll_number k st = (if st.1 k then pending else ready (err tt), k, st)

pub waits : (b : Bool) → Waits {V = Never} b (if b then pending else ready (err tt))
waits true = tt
waits false = refl

pub new_number : (alive : ℕ → Bool) (n : ℕ) → (if n == n then true else alive n) ≡ true
new_number alive n = ground arith

pub still_alive :
    (alive : ℕ → Bool) (n k : ℕ) → alive k ≡ true → (if k == n then true else alive k) ≡ true
still_alive alive n k h = ground arith

pub old_number : (alive : ℕ → Bool) (n : ℕ) → (if n == n then false else alive n) ≡ false
old_number alive n = ground arith

pub still_gone :
    (alive : ℕ → Bool) (n k : ℕ) → alive k ≡ false → (if k == n then false else alive k) ≡ false
still_gone alive n k h = ground arith

pub older_gone :
    (alive : ℕ → Bool) (n k : ℕ)
    → k < n
    → alive k ≡ false
    → (if k == n then true else alive k) ≡ false
older_gone alive n k l h = ground arith

abbrev pub numbered : Oneshot Never
numbered = record {
  Store = Numbers;
  Sender = ℕ;
  Receiver = ℕ;
  channel = λ (n, alive). (n, n, (suc n, λ k. if k == n then true else alive k));
  drop_sender = λ tx (n, alive). (n, λ k. if k == tx then false else alive k);
  drop_receiver = λ rx st. st;
  poll = poll_number;
  number = λ tx. tx;
  peer = λ rx. rx;
  alive = λ st. st.1;
  made = λ st. st.0;
  channel_made = λ (n, alive). (refl, refl, older_gone alive n);
  drop_sender_made = λ tx st. refl;
  drop_receiver_made = λ rx st. refl;
  poll_made = λ rx st. refl;
  channel_law = λ (n, alive). (refl, new_number alive n, still_alive alive n);
  drop_sender_law = λ tx (n, alive). (old_number alive tx, still_gone alive tx);
  drop_receiver_law = λ rx st k. refl;
  poll_law = λ rx st. (refl, λ k. refl, waits (st.1 rx));
}

abbrev pub Payload : Type 0
Payload = CancelPayload ℕ numbered

abbrev pub Queue : Type 0
Queue = List Payload × Bool × ℕ

abbrev pub less_one : ℕ → ℕ
less_one zero = zero
less_one (suc n) = n

abbrev pub send_to : Payload → Queue → Result (Unit {0}) Payload × Queue
send_to p (ps, true, n) = (err p, (ps, true, n))
send_to p (ps, false, n) = (ok tt, (ps ++ p ∷ [], false, n))

abbrev pub recv_from : Queue → Poll (Option Payload) × Queue
recv_from ([], closed, zero) = (ready none, ([], closed, zero))
recv_from ([], closed, suc n) = (pending, ([], closed, suc n))
recv_from (p ∷ ps, closed, n) = (ready (some p), (ps, closed, n))

pub send_to_law :
    (p : Payload) (c : Queue) → Sends {C = Queue} (λ c. c.0) (λ c. c.1) p c (send_to p c)
send_to_law p (ps, true, n) = (refl, refl, refl, refl)
send_to_law p (ps, false, n) = (refl, refl, refl)

pub send_to_senders : (p : Payload) (c : Queue) → (send_to p c).1.2 ≡ c.2
send_to_senders p (ps, true, n) = refl
send_to_senders p (ps, false, n) = refl

pub recv_from_law : (c : Queue) → Receives {C = Queue} (λ c. c.0) (λ c. c.1) c (recv_from c)
recv_from_law ([], closed, zero) = (refl, refl, refl)
recv_from_law ([], closed, suc n) = (refl, refl)
recv_from_law (p ∷ ps, closed, n) = (refl, refl)

pub recv_from_senders : (c : Queue) → (recv_from c).1.2 ≡ c.2
recv_from_senders ([], closed, zero) = refl
recv_from_senders ([], closed, suc n) = refl
recv_from_senders (p ∷ ps, closed, n) = refl

pub recv_from-Ends : (c : Queue) → Ends c.1 c.2 (recv_from c).0
recv_from-Ends ([], closed, zero) = inr refl
recv_from-Ends ([], closed, suc n) = tt
recv_from-Ends (p ∷ ps, closed, n) = tt

pub drop_one : (n m : ℕ) → n ≡ suc m → less_one n ≡ m
drop_one zero m e = absurd (omega arith)
drop_one (suc n) m e = omega arith

abbrev pub queued : Unbounded Payload
queued = record {
  Channel = Queue;
  new = ([], false, 1);
  clone_sender = λ (ps, closed, n). (ps, closed, suc n);
  drop_sender = λ (ps, closed, n). (ps, closed, less_one n);
  send = send_to;
  recv = recv_from;
  drop_receiver = λ (ps, closed, n). (ps, ([], true, n));
  queue = λ c. c.0;
  closed = λ c. c.1;
  senders = λ c. c.2;
  new_law = (refl, refl, refl);
  clone_law = λ c. (refl, refl);
  drop_sender_law = λ c. (refl, refl);
  send_law = send_to_law;
  recv_law = recv_from_law;
  drop_receiver_law = λ c. (refl, refl, refl);
  clone_senders = λ c. refl;
  drop_senders = λ (ps, closed, n). drop_one n;
  send_senders = send_to_senders;
  recv_senders = recv_from_senders;
  recv_ends = recv_from-Ends;
  close_senders = λ c. refl;
}
