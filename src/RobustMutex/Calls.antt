-- ===== src/RobustMutex/Calls.antt =====
-- src/sync/mutex.rs: the calls of one client on its mutex, and what they do to the marked cell.
use mathlib.Core.Path.{subst, ap₂}
use cancel_safe_futures.Base.{
  ℕ, zero, suc, ◌≡◌, ◌≢◌, refl, ap, ◌∙◌, Bool, true, false, not, ◌&&◌, ◌||◌, Option, none, some,
  Outcome, returned, unwound, is_unwound, arith,
}
use cancel_safe_futures.Poison.Error.{has_bit, panic_poison, cancel_poison}
use cancel_safe_futures.Poison.Laws.{any_bit}
use cancel_safe_futures.RobustMutex.Tokio.{TokioMutex}
use cancel_safe_futures.RobustMutex.Mutex.{
  RobustMutex, ActionPermit, drop_permit, get_mut, is_panic_poisoned, is_cancel_poisoned,
}
use cancel_safe_futures.RobustMutex.Permit.{perform}
use cancel_safe_futures.RobustMutex.Performing.{perform_lem}
use cancel_safe_futures.RobustMutex.Perform.{
  ActionFuture, armed, perform_async_boxed, after_call, settle, resume, abandon, poll_perform,
  drop_perform,
}
use cancel_safe_futures.RobustMutex.Client.{
  Op, run, run_async, overwrite, Response, ran, Spec, mark, report, started, async_spec, spec,
  driven, drive, with_permit,
}
use cancel_safe_futures.RobustMutex.Refinement.{
  Related, Free, Same, drive-Same, leave-Free, write_value-Related, new_panic,
}

no_mark : (b : Bool) → b ≡ (b || false)
no_mark b = ground arith

module _ {T R : Type 0} (tokio : TokioMutex T) (boxed : ActionFuture T R) where
  unlock-Free :
      (p : ActionPermit tokio) (m : RobustMutex tokio) (s : Spec boxed)
      → Related tokio boxed m s
      → Free tokio boxed (drop_permit tokio p m) s
  unfolding drop_permit is_panic_poisoned is_cancel_poisoned
  unlock-Free p m s h = (
    (tokio.unlock_law p.guard m.inner).1,
    record {
      value = (tokio.unlock_law p.guard m.inner).0 ∙ h.value;
      panicked = h.panicked;
      cancelled = h.cancelled;
      flag = h.flag;
    },
  )

  -- The first poll, when the closure gave `r`.
  start-Same :
      (now : Bool) (n : ℕ) (p : ActionPermit tokio) (m : RobustMutex tokio) (s : Spec boxed)
      (r : Outcome boxed.Fut × T)
      → Related tokio boxed m s
      → let (out, e, m1) = after_call tokio boxed now p m r.0 r.1 in
        let (f, m2) = settle tokio boxed e m1 in
        Same tokio boxed
          (driven tokio boxed (drive tokio boxed now n) now (out, f, m2))
          (started boxed now n s r)
  unfolding after_call drive driven settle poll_perform resume drop_perform abandon
  start-Same now n p m s (returned fut, t) h =
      drive-Same tokio boxed now (suc n) p fut _ (record s { value = t })
        (write_value-Related tokio boxed p t m s h)
  start-Same now n p m s (unwound, t) h =
      (refl, leave-Free tokio boxed p (armed now) true (not now) t m s (new_panic now) h)

  run_async-Same :
      (now : Bool) (n : ℕ) (p : ActionPermit tokio) (action : T → Outcome boxed.Fut × T)
      (m : RobustMutex tokio) (s : Spec boxed)
      → Related tokio boxed m s
      → Same tokio boxed
          (drive tokio boxed now n (perform_async_boxed tokio boxed p action) m)
          (async_spec boxed now action n s)
  unfolding drive async_spec perform_async_boxed poll_perform resume drop_perform abandon settle
  run_async-Same now zero p action m s h = (refl, unlock-Free p m s h)
  run_async-Same now (suc n) p action m s h =
      subst
        (λ t.
          Same tokio boxed
            (drive tokio boxed now (suc n) (perform_async_boxed tokio boxed p action) m)
            (started boxed now n s (action t)))
        h.value (start-Same now n p m s (action (tokio.value m.inner)) h)

  perform-Same :
      (now : Bool) (p : ActionPermit tokio) (action : T → Outcome R × T) (m : RobustMutex tokio)
      (s : Spec boxed)
      → Related tokio boxed m s
      → let (out, m') = perform tokio now p action m in
        let (out₀, t) = action s.value in
        (out ≡ out₀) × Free tokio boxed m' (mark boxed s t (not now && is_unwound out₀) false)
  perform-Same now p action m s h =
      let l = perform_lem tokio now p action m h.flag in
      subst
        (λ v.
          let (out₀, t) = action v in
          ((perform tokio now p action m).0 ≡ out₀)
          × Free tokio boxed (perform tokio now p action m).1
              (mark boxed s t (not now && is_unwound out₀) false))
        h.value
        (
          l.0,
          (
            l.2,
            record {
              value = l.1;
              panicked =
                  l.3
                  ∙ ap (λ b. b || (not now && is_unwound (action (tokio.value m.inner)).0))
                      h.panicked;
              cancelled = l.4 ∙ h.cancelled ∙ no_mark s.cancelled;
              flag = l.5;
            },
          ),
        )

  -- The call and the cell answer alike, and the lock is free again.
  abbrev pub Refined : Bool → Op boxed → Spec boxed → Response boxed × RobustMutex tokio → Type 0
  Refined now op s (r, m) =
      (r ≡ (spec boxed now op s).0) × Free tokio boxed m (spec boxed now op s).1

  pub get_mut-Free :
      (t : T) (m : RobustMutex tokio) (s : Spec boxed)
      → Free tokio boxed m s
      → Free tokio boxed (get_mut tokio t m) (record s { value = t })
  unfolding get_mut is_panic_poisoned is_cancel_poisoned
  get_mut-Free t m s (free, h) = (
    (tokio.write_mut_law t m.inner).1 ∙ free,
    record {
      value = (tokio.write_mut_law t m.inner).0;
      panicked = h.panicked;
      cancelled = h.cancelled;
      flag = h.flag;
    },
  )

  pub with_permit-Refined :
      (now : Bool) (op : Op boxed) (marks : Option (Bool × Bool)) (p : ActionPermit tokio)
      (m : RobustMutex tokio) (s : Spec boxed)
      → marks ≡ report boxed s
      → Related tokio boxed m s
      → Refined now op s (with_permit tokio boxed now op marks p m)
  unfolding with_permit spec
  with_permit-Refined now (run action) marks p m s e h =
      let l = perform-Same now p action m s h in (ap₂ (λ x y. ran x (some y)) e l.0, l.1)
  with_permit-Refined now (run_async action n) marks p m s e h =
      let l = run_async-Same now n p action m s h in (ap₂ (λ x y. ran x y) e l.0, l.1)
  with_permit-Refined now (overwrite t) marks p m s e h =
      (refl, get_mut-Free t (drop_permit tokio p m) s (unlock-Free p m s h))

  pub clean_report :
      (m : RobustMutex tokio) (s : Spec boxed)
      → Related tokio boxed m s
      → m.poison.failed ≡ 0
      → none ≡ report boxed s
  unfolding is_panic_poisoned is_cancel_poisoned
  clean_report m s h e = ground (arith, h.panicked, h.cancelled)

  pub poisoned_report :
      (m : RobustMutex tokio) (s : Spec boxed) (panic cancel : Bool)
      → Related tokio boxed m s
      → m.poison.failed ≢ 0
      → panic ≡ has_bit m.poison.failed panic_poison
      → cancel ≡ has_bit m.poison.failed cancel_poison
      → some (panic, cancel) ≡ report boxed s
  unfolding is_panic_poisoned is_cancel_poisoned
  poisoned_report m s panic cancel h e p c =
      ground (arith, h.panicked, h.cancelled, any_bit m.poison.failed h.flag)
