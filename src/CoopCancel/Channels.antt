-- ===== src/CoopCancel/Channels.antt =====
-- The channels of tokio that cooperative cancellation uses, which are not part of the crate. Both
-- halves of a channel act on its shared state. A poll may be pending for reasons of its own.
use cancel_safe_futures.Base.{
  ℕ, suc, ◌<◌, ◌≡◌, ◌⊎◌, Bool, true, false, List, [], ◌∷◌, ◌++◌, Option, none, some, Result, ok,
  err, Poll, pending, ready,
}

module _ {P C : Type 0} (queue : C → List P) (closed : C → Bool) where
  abbrev pub Sends : P → C → Result (Unit {0}) P × C → Type 0
  Sends p c (ok u, c') = (closed c ≡ false) × (queue c' ≡ queue c ++ p ∷ []) × (closed c' ≡ false)
  Sends p c (err q, c') = (closed c ≡ true) × (q ≡ p) × (queue c' ≡ queue c) × (closed c' ≡ true)

  abbrev pub Receives : C → Poll (Option P) × C → Type 0
  Receives c (pending, c') = (queue c' ≡ queue c) × (closed c' ≡ closed c)
  Receives c (ready (some p), c') = (queue c ≡ p ∷ queue c') × (closed c' ≡ closed c)
  Receives c (ready none, c') = (queue c ≡ []) × (queue c' ≡ []) × (closed c' ≡ closed c)

-- The stream of values ends only if the channel is closed or has no senders left.
abbrev pub Ends : {P : Type 0} → Bool → ℕ → Poll (Option P) → Type 0
Ends closed senders (ready none) = (closed ≡ true) ⊎ (senders ≡ 0)
Ends closed senders _ = Unit

-- `mpsc::unbounded_channel`
pub record Unbounded (P : Type 0) : Type 1 where
  pub Channel : Type 0
  pub new : Channel
  pub clone_sender : Channel → Channel
  pub drop_sender : Channel → Channel
  -- the value comes back if the receiver has been dropped
  pub send : P → Channel → Result (Unit {0}) P × Channel
  pub recv : Channel → Poll (Option P) × Channel
  -- closes the channel and gives the values that are dropped with it
  pub drop_receiver : Channel → List P × Channel
  pub queue : Channel → List P
  pub closed : Channel → Bool
  pub senders : Channel → ℕ
  pub new_law : (queue new ≡ []) × (closed new ≡ false) × (senders new ≡ 1)
  pub clone_law :
      (c : Channel) → (queue (clone_sender c) ≡ queue c) × (closed (clone_sender c) ≡ closed c)
  pub drop_sender_law :
      (c : Channel) → (queue (drop_sender c) ≡ queue c) × (closed (drop_sender c) ≡ closed c)
  pub send_law : (p : P) (c : Channel) → Sends queue closed p c (send p c)
  pub recv_law : (c : Channel) → Receives queue closed c (recv c)
  pub drop_receiver_law :
      (c : Channel)
      → ((drop_receiver c).0 ≡ queue c)
        × (queue (drop_receiver c).1 ≡ [])
        × (closed (drop_receiver c).1 ≡ true)
  pub clone_senders : (c : Channel) → senders (clone_sender c) ≡ suc (senders c)
  pub drop_senders : (c : Channel) (n : ℕ) → senders c ≡ suc n → senders (drop_sender c) ≡ n
  pub send_senders : (p : P) (c : Channel) → senders (send p c).1 ≡ senders c
  pub recv_senders : (c : Channel) → senders (recv c).1 ≡ senders c
  pub recv_ends : (c : Channel) → Ends (closed c) (senders c) (recv c).0
  pub close_senders : (c : Channel) → senders (drop_receiver c).1 ≡ senders c

-- A poll of a one-shot receiver is ready with an error only if the sender is gone.
abbrev pub Waits : {V : Type 0} → Bool → Poll (Result V (Unit {0})) → Type 0
Waits alive (ready (err e)) = alive ≡ false
Waits alive _ = Unit

-- `oneshot::channel`: the store holds all of these channels, numbered in the order in which they
-- were made, and which of them still have their sender.
pub record Oneshot (V : Type 0) : Type 1 where
  pub Store : Type 0
  pub Sender : Type 0
  pub Receiver : Type 0
  pub channel : Store → Sender × Receiver × Store
  pub drop_sender : Sender → Store → Store
  pub drop_receiver : Receiver → Store → Store
  pub poll : Receiver → Store → Poll (Result V (Unit {0})) × Receiver × Store
  pub number : Sender → ℕ
  pub peer : Receiver → ℕ
  pub alive : Store → ℕ → Bool
  -- how many channels have been made
  pub made : Store → ℕ
  pub channel_law :
      (s : Store)
      → let (tx, rx, s') = channel s in
        (peer rx ≡ number tx)
        × (alive s' (number tx) ≡ true)
        × ((k : ℕ) → alive s k ≡ true → alive s' k ≡ true)
  pub drop_sender_law :
      (tx : Sender) (s : Store)
      → (alive (drop_sender tx s) (number tx) ≡ false)
        × ((k : ℕ) → alive s k ≡ false → alive (drop_sender tx s) k ≡ false)
  pub drop_receiver_law :
      (rx : Receiver) (s : Store) (k : ℕ) → alive (drop_receiver rx s) k ≡ alive s k
  pub channel_made :
      (s : Store)
      → let (tx, rx, s') = channel s in
        (number tx ≡ made s)
        × (made s' ≡ suc (made s))
        × ((k : ℕ) → k < made s → alive s k ≡ false → alive s' k ≡ false)
  pub drop_sender_made : (tx : Sender) (s : Store) → made (drop_sender tx s) ≡ made s
  pub drop_receiver_made : (rx : Receiver) (s : Store) → made (drop_receiver rx s) ≡ made s
  pub poll_made : (rx : Receiver) (s : Store) → made (poll rx s).2 ≡ made s
  pub poll_law :
      (rx : Receiver) (s : Store)
      → let (r, rx', s') = poll rx s in
        (peer rx' ≡ peer rx) × ((k : ℕ) → alive s' k ≡ alive s k) × Waits (alive s (peer rx)) r
