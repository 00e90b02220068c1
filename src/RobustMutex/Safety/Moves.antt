-- ===== src/RobustMutex/Safety/Moves.antt =====
-- The moves of a task, and the invariant of the mutex that the other tasks rely on.
use mathlib.Core.Path.{subst}
use cancel_safe_futures.Base.{
  ◌≡◌, refl, sym, ◌∙◌, Bool, true, false, not, Poll, pending, ready, Outcome, returned, unwound,
  arith,
}
use cancel_safe_futures.Poison.Laws.{IsFlag, done-clean, done-has_bit}
use cancel_safe_futures.RobustMutex.Tokio.{TokioMutex}
use cancel_safe_futures.RobustMutex.Mutex.{RobustMutex, ActionPermit, drop_permit}
use cancel_safe_futures.RobustMutex.Permit.{drop_poisoner}
use cancel_safe_futures.RobustMutex.Perform.{
  ActionFuture, AsyncPoisoner, armed, unresumed, suspended, finished, Exit, PerformFuture,
  write_value, perform_async_boxed, drop_async_poisoner, after_poll, await_action, after_call,
  resume, abandon,
}
use cancel_safe_futures.RobustMutex.System.{
  Phase, working, exiting, Move, acquire, miss, discard, perform, finish, start, poll, cancel, stay,
  leave, gone, release, Starts, Continues,
}
use cancel_safe_futures.RobustMutex.Safety.Defs.{Safe, Sound, Fit, Effect}
use cancel_safe_futures.RobustMutex.Safety.Attempts.{Misses-Same}
use cancel_safe_futures.RobustMutex.Safety.Effects.{
  kept, calm, freed, acquire-effect, written, Safe-written, perform-effect,
}

module _ {T R : Type 0} (tokio : TokioMutex T) (boxed : ActionFuture T R) (P : T → Type 0)
    (J : boxed.Fut → T → Type 0) where
  -- A poll, before the drops: the lock is kept tokio boxed P J, and the exit is sound.
  abbrev Later :
      RobustMutex tokio → Outcome (Poll R) × Exit tokio boxed × RobustMutex tokio → Type 0
  Later m r =
      IsFlag r.2.poison
      × (tokio.held r.2.inner ≡ tokio.held m.inner)
      × Sound tokio boxed P J r.2 (exiting r.1)

  after_poll_lem :
      (b : Bool) (p : ActionPermit tokio) (z : AsyncPoisoner) (m : RobustMutex tokio)
      (out : Outcome (Poll R)) (fut : boxed.Fut) (t : T)
      → z.terminated ≡ false
      → IsFlag m.poison
      → (m.poison.failed ≡ 0 → Continues tokio boxed P J (out, fut, t))
      → Later m (after_poll tokio boxed b p z m out fut t)
  unfolding after_poll write_value
  after_poll_lem b p z m (returned pending) fut t live flag h = (
    flag,
    (tokio.write_law p.guard t m.inner).1,
    (live, Safe-written tokio boxed P J (J fut) m p.guard t h),
  )
  after_poll_lem b p z m (returned (ready r)) fut t live flag h =
      let w = tokio.write_law p.guard (boxed.drop fut t) m.inner in
      (flag, w.1, λ e. subst P (sym w.0) (h (done-clean m.poison z.poison_guard b false flag e).0))
  after_poll_lem b p z m unwound fut t live flag h =
      let w = tokio.write_law p.guard (boxed.drop fut t) m.inner in
      (
        flag,
        w.1,
        λ e.
            let c = done-clean m.poison z.poison_guard true (not z.terminated) flag e in
            absurd (ground arith),
      )

  module _
      (polls : (fut : boxed.Fut) (t : T)
        → J fut t
        → Continues tokio boxed P J (boxed.poll fut t)) where
    await_action_lem :
        (b : Bool) (p : ActionPermit tokio) (z : AsyncPoisoner) (fut : boxed.Fut)
        (m : RobustMutex tokio)
        → z.terminated ≡ false
        → IsFlag m.poison
        → Safe tokio boxed (J fut) m
        → Later m (await_action tokio boxed b p z fut m)
    unfolding await_action
    await_action_lem b p z fut m live flag h =
        let (out, fut', t) = boxed.poll fut (tokio.value m.inner) in
        after_poll_lem b p z m out fut' t live flag (λ e. polls _ _ (h e))

    after_call_lem :
        (b : Bool) (p : ActionPermit tokio) (m : RobustMutex tokio) (o : Outcome boxed.Fut × T)
        → IsFlag m.poison
        → (m.poison.failed ≡ 0 → Starts tokio boxed P J o)
        → Later m (after_call tokio boxed b p m o.0 o.1)
    unfolding after_call write_value
    after_call_lem b p m (returned fut, t) flag h =
        let w = tokio.write_law p.guard t m.inner in
        let later =
          await_action_lem b p (armed b) fut (written tokio boxed P J m p.guard t) refl flag
            (Safe-written tokio boxed P J (J fut) m p.guard t h) in
        (later.0, later.1 ∙ w.1, later.2)
    after_call_lem b p m (unwound, t) flag h =
        let w = tokio.write_law p.guard t m.inner in
        (flag, w.1, λ e. let c = done-clean m.poison (armed b).poison_guard true true flag e in cc)

    poll-effect :
        (b : Bool) (f : PerformFuture tokio boxed) {m : RobustMutex tokio}
        → Fit tokio boxed P J m (working f)
        → Effect tokio boxed P J m
            (working f)
            (resume tokio boxed b f m).2
            (exiting (resume tokio boxed b f m).1)
    unfolding resume
    poll-effect b (unresumed p action) {m} f =
        let r =
          after_call_lem b p m (action (tokio.value m.inner)) f.flag
            (λ e. f.sound.1 _ (f.sound.0 e)) in
        kept tokio boxed P J f refl r.0 r.1 r.2
    poll-effect b (suspended p z fut) {m} f =
        let r = await_action_lem b p z fut m f.sound.0 f.flag f.sound.1 in
        kept tokio boxed P J f refl r.0 r.1 r.2
    poll-effect b finished {m} f = calm tokio boxed P J f refl (refl, refl, refl) tt

    cancel-effect :
        (b : Bool) (f : PerformFuture tokio boxed) {m : RobustMutex tokio}
        → Fit tokio boxed P J m (working f)
        → Effect tokio boxed P J m
            (working f)
            (abandon tokio boxed b f m).1
            (exiting (abandon tokio boxed b f m).0)
    unfolding abandon write_value drop_permit
    cancel-effect b (unresumed p action) {m} f =
        freed tokio boxed P J refl refl f.flag
          (λ e. subst P (sym (tokio.unlock_law p.guard m.inner).0) (f.sound.0 e)) tt
    cancel-effect b (suspended p z fut) {m} f =
        kept tokio boxed P J f refl f.flag (tokio.write_law p.guard _ m.inner).1 λ e.
          let c = done-clean m.poison z.poison_guard b (not z.terminated) f.flag e in
          let live = f.sound.0 in absurd (ground arith)
    cancel-effect b finished {m} f = calm tokio boxed P J f refl (refl, refl, refl) tt

    pub Move-effect :
        {m m' : RobustMutex tokio} {p p' : Phase tokio boxed}
        → Move tokio boxed P J m p m' p'
        → Fit tokio boxed P J m p
        → Effect tokio boxed P J m p m' p'
    unfolding drop_poisoner drop_async_poisoner drop_permit perform_async_boxed
    Move-effect (acquire a) f = acquire-effect tokio boxed P J f a
    Move-effect (miss a) f = calm tokio boxed P J f refl (Misses-Same tokio boxed a) tt
    Move-effect discard f = kept tokio boxed P J f refl f.flag refl f.sound
    Move-effect (perform action restores) f = perform-effect tokio boxed P J action restores f
    Move-effect {m} (finish {p} {z} {now}) f =
        kept tokio boxed P J f refl (done-has_bit m.poison z.poison_guard now false f.flag).2 refl
          f.sound
    Move-effect (start action starts) f = kept tokio boxed P J f refl f.flag refl (f.sound, starts)
    Move-effect (poll {f = work} b) f = poll-effect b work f
    Move-effect (cancel {f = work} b) f = cancel-effect b work f
    Move-effect stay f = kept tokio boxed P J f refl f.flag refl f.sound
    Move-effect {m} (leave {p} {z} {now}) f =
        kept tokio boxed P J f refl
          (done-has_bit m.poison z.poison_guard now (not z.terminated) f.flag).2 refl f.sound
    Move-effect gone f = calm tokio boxed P J f refl (refl, refl, refl) tt
    Move-effect {m} (release {p}) f =
        freed tokio boxed P J refl refl f.flag
          (λ e. subst P (sym (tokio.unlock_law p.guard m.inner).0) (f.sound e)) tt
