-- ===== src/RobustMutex/Safety/Steps.antt =====
-- The steps of the system of tasks, and the invariant of the shared mutex.
use mathlib.Core.Path.{subst, subst₂}
use cancel_safe_futures.Base.{ℕ, ◌≡◌, sym, ap, ◌∙◌, true, false, inl, inr, ◌==◌, Bool-cases, arith}
use cancel_safe_futures.Poison.Flag.{Flag}
use cancel_safe_futures.Poison.Laws.{IsFlag, new-IsFlag}
use cancel_safe_futures.RobustMutex.Tokio.{TokioMutex}
use cancel_safe_futures.RobustMutex.Mutex.{RobustMutex, new, get_mut}
use cancel_safe_futures.RobustMutex.Perform.{
  ActionFuture, unresumed, suspended, finished, awaits, leaves, absent,
}
use cancel_safe_futures.RobustMutex.System.{
  Phase, idle, holding, finishing, working, exiting, releasing, System, Step, pick, write_mut,
  Reach, here, next, init, update, Continues,
}
use cancel_safe_futures.RobustMutex.Safety.Defs.{active, Same, SoundAt, Fit, Effect, Inv}
use cancel_safe_futures.RobustMutex.Safety.Moves.{Move-effect}

module _ {T R : Type 0} (tokio : TokioMutex T) (boxed : ActionFuture T R) (P : T → Type 0)
    (J : boxed.Fut → T → Type 0) where
  inactive-Sound :
      (f : Flag) (v : T) (p : Phase tokio boxed)
      → active tokio boxed p ≡ false
      → SoundAt tokio boxed P J f v p
  inactive-Sound f v idle e = tt
  inactive-Sound f v (working finished) e = tt
  inactive-Sound f v (exiting absent) e = tt
  inactive-Sound f v (holding p) e = cc
  inactive-Sound f v (finishing p z now) e = cc
  inactive-Sound f v (working (unresumed p action)) e = cc
  inactive-Sound f v (working (suspended p z fut)) e = cc
  inactive-Sound f v (exiting (awaits p z fut)) e = cc
  inactive-Sound f v (exiting (leaves p z now)) e = cc
  inactive-Sound f v (releasing p) e = cc

  Fit-Same :
      {m m' : RobustMutex tokio} {q : Phase tokio boxed}
      → Fit tokio boxed P J m q
      → Same tokio boxed m m'
      → IsFlag m'.poison
      → Fit tokio boxed P J m' q
  Fit-Same {q} f same flag = record {
    flag = flag;
    sound = subst₂ (λ c v. SoundAt tokio boxed P J c v q) (sym same.0) (sym same.1) f.sound;
    locked = λ on. same.2 ∙ f.locked on;
    free = λ e z.
        subst P (sym same.1)
          (f.free (sym same.2 ∙ e) (ap (λ (c : Flag). c.failed) (sym same.0) ∙ z));
  }

  -- A task that stands still keeps its fit: if it owns the lock, the other's move touched nothing.
  still :
      {m m' : RobustMutex tokio} {p p' : Phase tokio boxed} (q : Phase tokio boxed)
      → Effect tokio boxed P J m p m' p'
      → Fit tokio boxed P J m q
      → (active tokio boxed q ≡ true → active tokio boxed p ≡ false)
      → Fit tokio boxed P J m' q
  still {m} {m'} {p} {p'} q e f apart = elim (Bool-cases (active tokio boxed q)) [
    | inl on ↦ elim (Bool-cases (active tokio boxed p')) [
      | inl took ↦ let free = e.taken (apart on) took in let busy = f.locked on in cc
      | inr off ↦ Fit-Same f (e.quiet (apart on) off) e.fit.flag
    ]
    | inr off ↦ record {
      flag = e.fit.flag;
      sound = inactive-Sound m'.poison (tokio.value m'.inner) q off;
      locked = λ on. cc;
      free = e.fit.free;
    }
  ]

  not_both :
      {s : System tokio boxed} (i j : ℕ)
      → Inv tokio boxed P J s
      → (i == j) ≡ false
      → active tokio boxed (s.tasks j) ≡ true
      → active tokio boxed (s.tasks i) ≡ false
  not_both {s} i j inv apart on = elim (Bool-cases (active tokio boxed (s.tasks i))) [
    | inl also ↦ let same = inv.alone i j also on in ground arith
    | inr off ↦ off
  ]

  -- After a move of task `i`, another owner of the lock stood still, and `i` did not take it.
  not_taken :
      {s : System tokio boxed} {m' : RobustMutex tokio} {p' : Phase tokio boxed} (i j : ℕ)
      → Inv tokio boxed P J s
      → Effect tokio boxed P J s.mutex (s.tasks i) m' p'
      → (i == j) ≡ false
      → active tokio boxed (s.tasks j) ≡ true
      → active tokio boxed p' ≡ false
  not_taken {s} {p'} i j inv e apart on = elim (Bool-cases (active tokio boxed p')) [
    | inl took ↦
        let free = e.taken (not_both i j inv apart on) took in
        let busy = (inv.fits j).locked on in cc
    | inr off ↦ off
  ]

  pick-Inv :
      {s : System tokio boxed} {m' : RobustMutex tokio} {p' : Phase tokio boxed} (i : ℕ)
      → Inv tokio boxed P J s
      → Effect tokio boxed P J s.mutex (s.tasks i) m' p'
      → Inv tokio boxed P J (record { mutex = m'; tasks = update s.tasks i p' })
  pick-Inv {s} {m'} {p'} i inv e = record {
    fits = λ j. elim (Bool-cases (i == j)) [
      | inl same ↦ rw same e.fit
      | inr apart ↦ rw apart (still (s.tasks j) e (inv.fits j) (not_both i j inv apart))
    ];
    alone = λ j k on_j on_k. elim (Bool-cases (i == j)) [
      | inl at_j ↦ elim (Bool-cases (i == k)) [
        | inl at_k ↦ ground arith
        | inr off_k ↦
            let took = rw at_j at on_j in
            let off = not_taken i k inv e off_k (rw off_k at on_k) in cc
      ]
      | inr off_j ↦ elim (Bool-cases (i == k)) [
        | inl at_k ↦
            let took = rw at_k at on_k in
            let off = not_taken i j inv e off_j (rw off_j at on_j) in cc
        | inr off_k ↦ inv.alone j k (rw off_j at on_j) (rw off_k at on_k)
      ]
    ];
  }

  pub init-Inv : (t : T) → P t → Inv tokio boxed P J (init tokio boxed t)
  unfolding new
  init-Inv t h = record {
    fits = λ i. record {
      flag = new-IsFlag;
      sound = tt;
      locked = λ e. cc;
      free = λ _ _. subst P (sym (tokio.value-new t)) h;
    };
    alone = λ i j e. cc;
  }

  write_mut-Inv :
      {s : System tokio boxed} (t : T)
      → ((i : ℕ) → s.tasks i ≡ idle)
      → P t
      → Inv tokio boxed P J s
      → Inv tokio boxed P J (record s { mutex = get_mut tokio t s.mutex })
  unfolding get_mut
  write_mut-Inv {s} t none_out h inv = record {
    fits = λ i. rw (none_out i) (record {
      flag = (inv.fits i).flag;
      sound = tt;
      locked = λ e. cc;
      free = λ _ _. subst P (sym (tokio.write_mut_law t s.mutex.inner).0) h;
    });
    alone = inv.alone;
  }

  module _
      (polls : (fut : boxed.Fut) (t : T)
        → J fut t
        → Continues tokio boxed P J (boxed.poll fut t)) where
    -- Every step of the system keeps the invariant.
    pub Step-Inv :
        {s u : System tokio boxed}
        → Step tokio boxed P J s u
        → Inv tokio boxed P J s
        → Inv tokio boxed P J u
    Step-Inv (pick i mv) inv = pick-Inv i inv (Move-effect tokio boxed P J polls mv (inv.fits i))
    Step-Inv (write_mut t none_out h) inv = write_mut-Inv t none_out h inv

    pub Reach-Inv :
        {s u : System tokio boxed}
        → Reach tokio boxed P J s u
        → Inv tokio boxed P J s
        → Inv tokio boxed P J u
    Reach-Inv here inv = inv
    Reach-Inv (next r st) inv = Step-Inv st (Reach-Inv r inv)
