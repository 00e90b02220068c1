-- ===== src/Future/Executor.antt =====
-- A task that polls one future until it is ready, as `.await` does. Between two polls the world may
-- change.
use cancel_safe_futures.Base.{
  ℕ, zero, suc, ◌≡◌, ap, Option, none, some, Poll, pending, ready, Outcome, returned, unwound,
}

-- What a poll of `J` returns, with an output of type `R`.
abbrev pub Polled : Type 0 → Type 0 → Type 0 → Type 0
Polled J R W = Option (Outcome (Poll R) × J × W)

module _ {J R W : Type 0} where
  unfoldable pub after_poll : (J → W → Option (Outcome R)) → Polled J R W → Option (Outcome R)
  after_poll again none = none
  after_poll again (some (unwound, j, w)) = some unwound
  after_poll again (some (returned pending, j, w)) = again j w
  after_poll again (some (returned (ready r), j, w)) = some (returned r)

  -- At most `n` polls; `none` means that more are needed, or that a poll ran out of fuel.
  unfoldable pub block_on : (J → W → Polled J R W) → (W → W) → ℕ → J → W → Option (Outcome R)
  unfolding after_poll
  block_on poll between zero j w = none
  block_on poll between (suc n) j w =
      after_poll (λ j' w'. block_on poll between n j' (between w')) (poll j w)

  module _ (r : R) (Left : ℕ → J → Type 0) where
    -- What one poll owes: with at most `suc n` polls left it gives `r`, or leaves `n`.
    abbrev pub Advanced : ℕ → Polled J R W → Type 0
    Advanced n none = ⊥
    Advanced n (some (unwound, j, w)) = ⊥
    Advanced n (some (returned pending, j, w)) = Left n j
    Advanced n (some (returned (ready x), j, w)) = x ≡ r

    after_poll_lem :
        (n : ℕ) (again : J → W → Option (Outcome R))
        → ((j : J) (w : W) → Left n j → again j w ≡ some (returned r))
        → (p : Polled J R W) → Advanced n p
        → after_poll again p ≡ some (returned r)
    unfolding after_poll
    after_poll_lem n again ih none h = absurd h
    after_poll_lem n again ih (some (unwound, j, w)) h = absurd h
    after_poll_lem n again ih (some (returned pending, j, w)) h = ih j w h
    after_poll_lem n again ih (some (returned (ready x), j, w)) h = ap (λ y. some (returned y)) h

    pub block_on_lem :
        (poll : J → W → Polled J R W) (between : W → W)
        → ((j : J) → Left 0 j → ⊥)
        → ((n : ℕ) (j : J) (w : W) → Left (suc n) j → Advanced n (poll j w))
        → (n : ℕ) (j : J) (w : W) → Left n j
        → block_on poll between n j w ≡ some (returned r)
    unfolding block_on
    block_on_lem poll between none_left step zero j w h = absurd (none_left j h)
    block_on_lem poll between none_left step (suc n) j w h =
        after_poll_lem n (λ j' w'. block_on poll between n j' (between w'))
          (λ j' w' h'. block_on_lem poll between none_left step n j' (between w') h') (poll j w)
          (step n j w h)
