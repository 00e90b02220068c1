-- ===== src/CoopCancel/System.antt =====
-- src/coop_cancel.rs: cancelers, the receiver and waiters that use one pair, in any order.
use cancel_safe_futures.Base.{
  ℕ, suc, ◌≡◌, List, [], ◌∷◌, ◌++◌, Option, none, some, Result, ok, err, Poll, pending, ready,
}
use cancel_safe_futures.CoopCancel.Channels.{Unbounded, Oneshot}
use cancel_safe_futures.CoopCancel.Defs.{
  Never, CancelPayload, Receiver, Waiter, Shared, new_pair, cancel, clone, poll_recv, drop_receiver,
  drop_waiter, poll_waiter,
}

module _ {T : Type 0} (once : Oneshot Never) (mpsc : Unbounded (CancelPayload T once)) where
  -- The receiver is `none` once it has been dropped. `sent` are the messages of the calls of
  -- `cancel` that succeeded, `received` those that `recv` gave, both in order; `waiters` are all
  -- that `cancel` gave, also those that have been dropped. So many `cancelers` there are.
  pub record System : Type 0 where
    pub shared : Shared once mpsc
    pub cancelers : ℕ
    pub receiver : Option (Receiver once mpsc)
    pub waiters : List (Waiter once mpsc)
    pub sent : List T
    pub received : List T

  abbrev pub after_cancel : System → T → Result (Waiter once mpsc) T × Shared once mpsc → System
  after_cancel s m (ok w, sh) = record s {
    shared = sh;
    waiters = w ∷ s.waiters;
    sent = s.sent ++ m ∷ [];
  }
  after_cancel s m (err m', sh) = record s { shared = sh }

  abbrev pub after_poll_recv :
      System → Poll (Option T) × Receiver once mpsc × Shared once mpsc → System
  after_poll_recv s (ready (some m), r, sh) = record s {
    shared = sh;
    receiver = some r;
    received = s.received ++ m ∷ [];
  }
  after_poll_recv s (ready none, r, sh) = record s { shared = sh; receiver = some r }
  after_poll_recv s (pending, r, sh) = record s { shared = sh; receiver = some r }

  pub data Step (s : System) : System → Type 0 where
    by_cancel :
        (m : T) (n : ℕ)
        → s.cancelers ≡ suc n
        → Step s (after_cancel s m (cancel once mpsc m s.shared))
    by_clone :
        (n : ℕ)
        → s.cancelers ≡ suc n
        → Step s (record s { shared = clone once mpsc s.shared; cancelers = suc s.cancelers })
    by_drop :
        (n : ℕ)
        → s.cancelers ≡ suc n
        → Step s (record s { shared = (mpsc.drop_sender s.shared.0, s.shared.1); cancelers = n })
    by_recv :
        (r : Receiver once mpsc)
        → s.receiver ≡ some r
        → Step s (after_poll_recv s (poll_recv once mpsc r s.shared))
    by_drop_receiver :
        (r : Receiver once mpsc)
        → s.receiver ≡ some r
        → Step s (record s { shared = drop_receiver once mpsc r s.shared; receiver = none })
    by_wait :
        (w : Waiter once mpsc)
        → Step s (record s { shared = (s.shared.0, (poll_waiter once mpsc w s.shared.1).2) })
    by_drop_waiter :
        (w : Waiter once mpsc)
        → Step s (record s { shared = (s.shared.0, drop_waiter once mpsc w s.shared.1) })

  pub data Reach (s : System) : System → Type 0 where
    here : Reach s s
    next : {t u : System} → Reach s t → Step t u → Reach s u

  abbrev pub init : once.Store → System
  init st = record {
    shared = ((new_pair once mpsc).0, st);
    cancelers = 1;
    receiver = some (new_pair once mpsc).1;
    waiters = [];
    sent = [];
    received = [];
  }
