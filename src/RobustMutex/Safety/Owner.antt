-- ===== src/RobustMutex/Safety/Owner.antt =====
-- src/sync/mutex.rs: who holds the lock.
use cancel_safe_futures.Base.{
  ℕ, ◌≡◌, ◌⊎◌, inl, inr, refl, sym, ap, ◌∙◌, Bool, true, false, ◌==◌, Bool-cases, Poll, pending,
  ready, Outcome, returned, unwound, arith,
}
use cancel_safe_futures.RobustMutex.Tokio.{TokioMutex}
use cancel_safe_futures.RobustMutex.Mutex.{RobustMutex, ActionPermit, get_mut, drop_permit}
use cancel_safe_futures.RobustMutex.Perform.{
  ActionFuture, AsyncPoisoner, PerformFuture, unresumed, suspended, finished, perform_async_boxed,
  after_poll, await_action, after_call, resume, abandon,
}
use cancel_safe_futures.RobustMutex.System.{
  Phase, working, exiting, System, Move, acquire, miss, discard, perform, finish, start, poll,
  cancel, stay, leave, gone, release, Step, pick, write_mut, Reach, here, next, update,
}
use cancel_safe_futures.RobustMutex.Safety.Defs.{active}
use cancel_safe_futures.RobustMutex.Safety.Attempts.{Misses-Same}

module _ {T R : Type 0} (tokio : TokioMutex T) (boxed : ActionFuture T R) where
  -- A task that owns the lock.
  pub record Owner (s : System tokio boxed) : Type 0 where
    pub task : ℕ
    pub owns : active tokio boxed (s.tasks task) ≡ true

  after_poll-active :
      (b : Bool) (p : ActionPermit tokio) (z : AsyncPoisoner) (m : RobustMutex tokio)
      (out : Outcome (Poll R)) (fut : boxed.Fut) (t : T)
      → active tokio boxed (exiting (after_poll tokio boxed b p z m out fut t).1) ≡ true
  unfolding after_poll
  after_poll-active b p z m (returned pending) fut t = refl
  after_poll-active b p z m (returned (ready r)) fut t = refl
  after_poll-active b p z m unwound fut t = refl

  after_call-active :
      (b : Bool) (p : ActionPermit tokio) (m : RobustMutex tokio) (out : Outcome boxed.Fut) (t : T)
      → active tokio boxed (exiting (after_call tokio boxed b p m out t).1) ≡ true
  unfolding after_call await_action
  after_call-active b p m (returned fut) t = after_poll-active b p _ _ _ _ _
  after_call-active b p m unwound t = refl

  pub update_same : (f : ℕ → Phase tokio boxed) (i : ℕ) (p : Phase tokio boxed) → update f i p i ≡ p
  update_same f i p = ground arith

  module _ (P : T → Type 0) (J : boxed.Fut → T → Type 0) where
    -- A step of a task ends with the task as an owner, or with the lock free, or was none of an
    -- owner and left the lock as it was.
    abbrev Passes :
        RobustMutex tokio → Phase tokio boxed → RobustMutex tokio → Phase tokio boxed → Type 0
    Passes m p m' p' =
        (active tokio boxed p' ≡ true)
        ⊎ (tokio.held m'.inner ≡ false)
        ⊎ ((active tokio boxed p ≡ false) × (tokio.held m'.inner ≡ tokio.held m.inner))

    poll-Passes :
        (b : Bool) (f : PerformFuture tokio boxed) (m : RobustMutex tokio)
        → Passes m (working f) (resume tokio boxed b f m).2 (exiting (resume tokio boxed b f m).1)
    unfolding resume await_action
    poll-Passes b (unresumed p action) m = inl (after_call-active b p m _ _)
    poll-Passes b (suspended p z fut) m = inl (after_poll-active b p z m _ _ _)
    poll-Passes b finished m = inr (inr (refl, refl))

    cancel-Passes :
        (b : Bool) (f : PerformFuture tokio boxed) (m : RobustMutex tokio)
        → Passes m (working f) (abandon tokio boxed b f m).1 (exiting (abandon tokio boxed b f m).0)
    unfolding abandon drop_permit
    cancel-Passes b (unresumed p action) m = inr (inl (tokio.unlock_law p.guard m.inner).1)
    cancel-Passes b (suspended p z fut) m = inl refl
    cancel-Passes b finished m = inr (inr (refl, refl))

    Move-Passes :
        {m m' : RobustMutex tokio} {p p' : Phase tokio boxed}
        → Move tokio boxed P J m p m' p'
        → Passes m p m' p'
    unfolding perform_async_boxed drop_permit
    Move-Passes (acquire a) = inl refl
    Move-Passes (miss a) = let same = Misses-Same tokio boxed a in inr (inr (refl, same.2))
    Move-Passes discard = inl refl
    Move-Passes (perform action restores) = inl refl
    Move-Passes finish = inl refl
    Move-Passes (start action starts) = inl refl
    Move-Passes {m} (poll {f = work} b) = poll-Passes b work m
    Move-Passes {m} (cancel {f = work} b) = cancel-Passes b work m
    Move-Passes stay = inl refl
    Move-Passes leave = inl refl
    Move-Passes gone = inr (inr (refl, refl))
    Move-Passes {m} (release {p}) = inr (inl (tokio.unlock_law p.guard m.inner).1)

    -- A lock that is held has an owner.
    abbrev pub IsOwned : System tokio boxed → Type 0
    IsOwned s = tokio.held s.mutex.inner ≡ true → Owner s

    pick-IsOwned :
        (s : System tokio boxed) (i : ℕ) (m : RobustMutex tokio) (p : Phase tokio boxed)
        → IsOwned s
        → Passes s.mutex (s.tasks i) m p
        → IsOwned (record { mutex = m; tasks = update s.tasks i p })
    pick-IsOwned s i m p h (inl on) =
        λ e. record { task = i; owns = ap (active tokio boxed) (update_same s.tasks i p) ∙ on }
    pick-IsOwned s i m p h (inr (inl free)) = λ e. cc
    pick-IsOwned s i m p h (inr (inr (off, same))) = λ e.
        let o = h (sym same ∙ e) in
        elim (Bool-cases (i == o.task)) [
          | inl at ↦
              let on = o.owns in
              let same_task : i ≡ o.task = ground arith in
              let on_i = ap (λ j. active tokio boxed (s.tasks j)) same_task in cc
          | inr apart ↦ record { task = o.task; owns = rw apart o.owns }
        ]

    Step-IsOwned : {s u : System tokio boxed} → Step tokio boxed P J s u → IsOwned s → IsOwned u
    unfolding get_mut
    Step-IsOwned {s} (pick i {m} {p} mv) h = pick-IsOwned s i m p h (Move-Passes mv)
    Step-IsOwned {s} (write_mut t none_out k) h = λ e.
        let o = h (sym (tokio.write_mut_law t s.mutex.inner).1 ∙ e) in
        record { task = o.task; owns = o.owns }

    pub Reach-IsOwned :
        {s u : System tokio boxed} → Reach tokio boxed P J s u → IsOwned s → IsOwned u
    Reach-IsOwned here h = h
    Reach-IsOwned (next r st) h = Step-IsOwned st (Reach-IsOwned r h)
