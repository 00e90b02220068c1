-- ===== src/RobustMutex/Refinement.antt =====
-- src/sync/mutex.rs: the mutex of one client, step by step against the marked cell.
use mathlib.Core.Path.{subst}
use cancel_safe_futures.Base.{
  ℕ, zero, suc, ◌≡◌, refl, sym, Bool, true, false, not, ◌&&◌, Option, some, Poll, pending, ready,
  Outcome, returned, unwound, arith,
}
use cancel_safe_futures.Poison.Laws.{IsFlag, done-has_bit}
use cancel_safe_futures.RobustMutex.Tokio.{TokioMutex}
use cancel_safe_futures.RobustMutex.Mutex.{
  RobustMutex, ActionPermit, is_panic_poisoned, is_cancel_poisoned, drop_permit,
}
use cancel_safe_futures.RobustMutex.Perform.{
  ActionFuture, AsyncPoisoner, armed, PerformFuture, suspended, finished, leaves, write_value,
  after_poll, settle, resume, await_action, abandon, poll_perform, drop_perform,
}
use cancel_safe_futures.RobustMutex.Client.{Spec, mark, go_on, await_spec, driven, drive}

same_panic : (b : Bool) → (not b && b) ≡ false
same_panic b = ground arith

pub new_panic : (b : Bool) → (not b && true) ≡ not b
new_panic b = ground arith

module _ {T R : Type 0} (tokio : TokioMutex T) (boxed : ActionFuture T R) where
  pub record Related (m : RobustMutex tokio) (s : Spec boxed) : Type 0 where
    pub value : tokio.value m.inner ≡ s.value
    pub panicked : is_panic_poisoned tokio m ≡ s.panicked
    pub cancelled : is_cancel_poisoned tokio m ≡ s.cancelled
    pub flag : IsFlag m.poison

  pub write_value-Related :
      (p : ActionPermit tokio) (t : T) (m : RobustMutex tokio) (s : Spec boxed)
      → Related m s
      → Related (write_value tokio boxed p t m) (record s { value = t })
  unfolding write_value is_panic_poisoned is_cancel_poisoned
  write_value-Related p t m s h = record {
    value = (tokio.write_law p.guard t m.inner).0;
    panicked = h.panicked;
    cancelled = h.cancelled;
    flag = h.flag;
  }

  -- Related, and the lock is free.
  abbrev pub Free : RobustMutex tokio → Spec boxed → Type 0
  Free m s = (tokio.held m.inner ≡ false) × Related m s

  settle-Free :
      (p : ActionPermit tokio) (z : AsyncPoisoner) (panicking : Bool) (m : RobustMutex tokio)
      (s : Spec boxed)
      → Related m s
      → Free
          (settle tokio boxed (leaves p z panicking) m).1
          (mark boxed s s.value (not z.poison_guard.panicking && panicking) (not z.terminated))
  unfolding settle drop_permit is_panic_poisoned is_cancel_poisoned
  settle-Free p z panicking m s h = ground (
    arith,
    h.value,
    h.panicked,
    h.cancelled,
    h.flag,
    done-has_bit m.poison z.poison_guard panicking (not z.terminated) h.flag,
    tokio.unlock_law p.guard m.inner,
  )

  -- The future leaves the data at `t`, with the panic mark `panic`.
  pub leave-Free :
      (p : ActionPermit tokio) (z : AsyncPoisoner) (panicking panic : Bool) (t : T)
      (m : RobustMutex tokio) (s : Spec boxed)
      → (not z.poison_guard.panicking && panicking) ≡ panic
      → Related m s
      → Free
          (settle tokio boxed (leaves p z panicking) (write_value tokio boxed p t m)).1
          (mark boxed s t panic (not z.terminated))
  leave-Free p z panicking panic t m s e h =
      subst
        (λ b.
          Free (settle tokio boxed (leaves p z panicking) (write_value tokio boxed p t m)).1
            (mark boxed s t b (not z.terminated)))
        e
        (settle-Free p z panicking (write_value tokio boxed p t m) (record s { value = t })
          (write_value-Related p t m s h))

  abbrev pub Same :
      Option (Outcome R) × RobustMutex tokio → Option (Outcome R) × Spec boxed → Type 0
  Same (out, m) (out₀, s) = (out ≡ out₀) × Free m s

  -- One poll of the future, when the action's poll gave the second argument.
  abbrev Stepped :
      Bool
      → ActionPermit tokio
      → Spec boxed
      → Outcome (Poll R) × boxed.Fut × T
      → Outcome (Poll R) × PerformFuture tokio boxed × RobustMutex tokio
      → Type 0
  Stepped now p s (returned pending, fut, t) (out, f, m) =
      (out ≡ returned pending)
      × (f ≡ suspended p (armed now) fut)
      × Related m (record s { value = t })
  Stepped now p s (returned (ready r), fut, t) (out, f, m) =
      (out ≡ returned (ready r))
      × (f ≡ finished)
      × Free m (mark boxed s (boxed.drop fut t) false false)
  Stepped now p s (unwound, fut, t) (out, f, m) =
      (out ≡ unwound) × (f ≡ finished) × Free m (mark boxed s (boxed.drop fut t) (not now) true)

  after_poll-Stepped :
      (now : Bool) (p : ActionPermit tokio) (m : RobustMutex tokio) (s : Spec boxed)
      (r : Outcome (Poll R) × boxed.Fut × T)
      → Related m s
      → let (out, e, m1) = after_poll tokio boxed now p (armed now) m r.0 r.1 r.2 in
        let (f, m2) = settle tokio boxed e m1 in Stepped now p s r (out, f, m2)
  unfolding after_poll settle
  after_poll-Stepped now p m s (returned pending, fut, t) h =
      (refl, refl, write_value-Related p t m s h)
  after_poll-Stepped now p m s (returned (ready r), fut, t) h = (
    refl,
    refl,
    leave-Free p (record { poison_guard = record { panicking = now }; terminated = true }) now false
        (boxed.drop fut t) m s (same_panic now) h,
  )
  after_poll-Stepped now p m s (unwound, fut, t) h =
      (refl, refl, leave-Free p (armed now) true (not now) (boxed.drop fut t) m s (new_panic now) h)

  driven-Same :
      (again : PerformFuture tokio boxed
        → RobustMutex tokio
        → Option (Outcome R) × RobustMutex tokio)
      (follow : boxed.Fut → Spec boxed → Option (Outcome R) × Spec boxed) (now : Bool)
      (p : ActionPermit tokio) (s : Spec boxed) (r : Outcome (Poll R) × boxed.Fut × T)
      (q : Outcome (Poll R) × PerformFuture tokio boxed × RobustMutex tokio)
      → ((fut : boxed.Fut) (m : RobustMutex tokio) (u : Spec boxed)
          → Related m u
          → Same (again (suspended p (armed now) fut) m) (follow fut u))
      → Stepped now p s r q
      → Same (driven tokio boxed again now q) (go_on boxed follow now s r)
  unfolding driven go_on drop_perform settle
  driven-Same again follow now p s (returned pending, fut, t) (returned pending, f, m) ih h =
      subst (λ g. Same (again g m) (follow fut (record s { value = t }))) (sym h.1)
        (ih fut m (record s { value = t }) h.2)
  driven-Same again follow now p s (returned pending, fut, t) (returned (ready x), f, m) ih h =
      cc (h.0)
  driven-Same again follow now p s (returned pending, fut, t) (unwound, f, m) ih h = cc (h.0)
  driven-Same again follow now p s (returned (ready r), fut, t) (returned pending, f, m) ih h =
      cc (h.0)
  driven-Same again follow now p s (returned (ready r), fut, t) (returned (ready x), f, m) ih h =
      subst
        (λ g.
          Same (some (returned x), drop_perform tokio boxed now g m)
            (some (returned r), mark boxed s (boxed.drop fut t) false false))
        (sym h.1) (cc (h.0), h.2)
  driven-Same again follow now p s (returned (ready r), fut, t) (unwound, f, m) ih h = cc (h.0)
  driven-Same again follow now p s (unwound, fut, t) (returned pending, f, m) ih h = cc (h.0)
  driven-Same again follow now p s (unwound, fut, t) (returned (ready x), f, m) ih h = cc (h.0)
  driven-Same again follow now p s (unwound, fut, t) (unwound, f, m) ih h =
      subst
        (λ g.
          Same (some unwound, drop_perform tokio boxed now g m)
            (some unwound, mark boxed s (boxed.drop fut t) (not now) true))
        (sym h.1) (refl, h.2)

  -- The future between two polls, polled at most `n` times more.
  pub drive-Same :
      (now : Bool) (n : ℕ) (p : ActionPermit tokio) (fut : boxed.Fut) (m : RobustMutex tokio)
      (s : Spec boxed)
      → Related m s
      → Same
          (drive tokio boxed now n (suspended p (armed now) fut) m)
          (await_spec boxed now n fut s)
  unfolding drive await_spec poll_perform resume await_action drop_perform abandon settle
  drive-Same now zero p fut m s h =
      let t = boxed.drop fut (tokio.value m.inner) in
      (
        refl,
        subst
            (λ v.
              Free (settle tokio boxed (leaves p (armed now) now) (write_value tokio boxed p t m)).1
                (mark boxed s (boxed.drop fut v) false true))
            h.value (leave-Free p (armed now) now false t m s (same_panic now) h),
      )
  drive-Same now (suc n) p fut m s h =
      subst
        (λ t.
          Same (drive tokio boxed now (suc n) (suspended p (armed now) fut) m)
            (go_on boxed (await_spec boxed now n) now s (boxed.poll fut t)))
        h.value
        (driven-Same (drive tokio boxed now n) (await_spec boxed now n) now p s
          (boxed.poll fut (tokio.value m.inner))
          (poll_perform tokio boxed now (suspended p (armed now) fut) m)
          (λ fut' m' u k. drive-Same now n p fut' m' u k)
          (after_poll-Stepped now p m s (boxed.poll fut (tokio.value m.inner)) h))
