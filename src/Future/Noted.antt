-- ===== src/Future/Noted.antt =====
-- A future whose result is paired with what the caller reads off the poll that gave it.
use cancel_safe_futures.Base.{
  ℕ, zero, suc, ◌≡◌, Bool, true, Bool-cases, inl, inr, Option, none, some, pending, ready, Outcome,
  returned, unwound,
}
use cancel_safe_futures.Future.Executor.{Polled}
use cancel_safe_futures.Future.Woken.{after_woken, block_on_woken}

module _ {J R W : Type 0} where
  abbrev pub note : (J → Bool) → Polled J R W → Polled J (R × Bool) W
  note over none = none
  note over (some (unwound, j, w)) = some (unwound, j, w)
  note over (some (returned pending, j, w)) = some (returned pending, j, w)
  note over (some (returned (ready r), j, w)) = some (returned (ready (r, over j)), j, w)

  -- `over` is asked of the state and the world before a poll and of the state after it.
  unfoldable pub noting :
      (J → W → J → Bool) → (J → W → Polled J R W) → J → W → Polled J (R × Bool) W
  noting over poll j w = note (over j w) (poll j w)

  -- A poll that is ready is `over`, one that is pending keeps `Inv`.
  abbrev pub OverIfReady : (J → Type 0) → (J → Bool) → Polled J R W → Type 0
  OverIfReady Inv over none = Unit
  OverIfReady Inv over (some (unwound, j, w)) = Unit
  OverIfReady Inv over (some (returned pending, j, w)) = Inv j
  OverIfReady Inv over (some (returned (ready r), j, w)) = over j ≡ true

  module _ (will_wake : W → Bool) (Inv : J → Type 0) (r : R) where
    after_woken-note :
        (over : J → Bool) (again : J → W → Option (Outcome R))
        (again' : J → W → Option (Outcome (R × Bool)))
        → ((j : J) (w : W)
            → Inv j
            → again j w ≡ some (returned r)
            → again' j w ≡ some (returned (r, true)))
        → (a : Polled J R W) → OverIfReady Inv over a
        → after_woken will_wake again a ≡ some (returned r)
        → after_woken will_wake again' (note over a) ≡ some (returned (r, true))
    unfolding after_woken
    after_woken-note over again again' ih none h e = cc
    after_woken-note over again again' ih (some (unwound, j, w)) h e = cc
    after_woken-note over again again' ih (some (returned pending, j, w)) h e =
        elim (Bool-cases (will_wake w)) [
          | inl woken ↦ rw woken (ih j w h (rw woken at e))
          | inr asleep ↦ let never = rw asleep at e in cc
        ]
    after_woken-note over again again' ih (some (returned (ready x), j, w)) h e = cc

    -- If every poll that is ready is `over`, then so is the one that ends the run.
    pub block_on_woken-noting :
        (over : J → W → J → Bool) (poll : J → W → Polled J R W) (between : W → W)
        → ((j : J) (w : W) → Inv j → OverIfReady Inv (over j w) (poll j w))
        → (n : ℕ) (j : J) (w : W) → Inv j
        → block_on_woken will_wake poll between n j w ≡ some (returned r)
        → block_on_woken will_wake (noting over poll) between n j w ≡ some (returned (r, true))
    unfolding block_on_woken noting
    block_on_woken-noting over poll between ends zero j w i e = cc
    block_on_woken-noting over poll between ends (suc n) j w i e =
        after_woken-note (over j w)
          (λ j' w'. block_on_woken will_wake poll between n j' (between w'))
          (λ j' w'. block_on_woken will_wake (noting over poll) between n j' (between w'))
          (λ j' w' i' e'. block_on_woken-noting over poll between ends n j' (between w') i' e')
          (poll j w) (ends j w i) e
