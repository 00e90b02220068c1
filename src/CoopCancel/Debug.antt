-- ===== src/CoopCancel/Debug.antt =====
-- src/coop_cancel.rs: what `Debug` writes, from the texts of the channels' ends.
use cancel_safe_futures.Base.{Option}
use cancel_safe_futures.Fmt.{Formatter}
use cancel_safe_futures.CoopCancel.Channels.{Unbounded, Oneshot}
use cancel_safe_futures.CoopCancel.Defs.{Never, CancelPayload, Receiver, Waiter}

module _ (f : Formatter) {T : Type 0} (once : Oneshot Never)
    (mpsc : Unbounded (CancelPayload T once)) where
  -- `receiver` is the text of the channel's receiving half.
  unfoldable pub debug_receiver :
      f.Text → (Option once.Sender → f.Text) → Receiver once mpsc → f.Text
  debug_receiver receiver first_sender r = f.finish (
      f.field "first_sender" (first_sender r.first_sender)
        (f.field "receiver" receiver (f.debug_struct "Receiver")))

  -- A canceler is its half of the channel.
  unfoldable pub debug_canceler : f.Text → f.Text
  debug_canceler sender = f.finish (f.field "sender" sender (f.debug_struct "Canceler"))

  unfoldable pub debug_waiter : (once.Receiver → f.Text) → Waiter once mpsc → f.Text
  debug_waiter dropped_receiver w =
      f.finish
        (f.field "dropped_receiver" (dropped_receiver w.dropped_receiver) (f.debug_struct "Waiter"))

  unfoldable pub debug_payload :
      (T → f.Text) → (once.Sender → f.Text) → CancelPayload T once → f.Text
  debug_payload message dropped_sender p = f.finish (
      f.field "dropped_sender" (dropped_sender p.dropped_sender)
        (f.field "message" (message p.message) (f.debug_struct "CancelPayload")))
