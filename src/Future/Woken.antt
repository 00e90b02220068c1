-- ===== src/Future/Woken.antt =====
-- A task that polls one future, and is polled again only when it was woken.
use cancel_safe_futures.Base.{
  ℕ, zero, suc, ◌≡◌, refl, Bool, true, false, if◌then◌else◌, List, [], ◌∷◌, Option, none, some,
  pending, ready, Outcome, returned, unwound,
}
use cancel_safe_futures.Future.MaybeDone.{Stage, future, done, gone}
use cancel_safe_futures.Future.Round.{all_ready, Intact}
use cancel_safe_futures.Future.Waking.{IfAnyPending, AllArmed}
use cancel_safe_futures.Future.Executor.{Polled, after_poll, block_on}

-- A future was awaited to its end, and its output is `Good`.
abbrev pub Ends : {R : Type 0} → (R → Type 0) → Option (Outcome R) → Type 0
Ends Good none = ⊥
Ends Good (some unwound) = ⊥
Ends Good (some (returned r)) = Good r

module _ {W : Type 0} (will_wake : W → Bool) where
  -- The arrangement that counts for such a task.
  abbrev pub Woken : {S : Type 0} → S → W → Type 0
  Woken s w = will_wake w ≡ true

  -- If futures still run and each has arranged a wake-up, there is one.
  pub AllArmed-Woken :
      {F Out : Type 0} (ss : List (Stage F Out)) (w : W)
      → Intact ss
      → all_ready ss ≡ false
      → AllArmed Woken ss w
      → will_wake w ≡ true
  AllArmed-Woken [] w i e h = cc
  AllArmed-Woken (future f ∷ ss) w i e h = h.0
  AllArmed-Woken (done o ∷ ss) w i e h = AllArmed-Woken ss w i e h
  AllArmed-Woken (gone ∷ ss) w i e h = absurd i

  module _ {J R : Type 0} where
    unfoldable pub after_woken : (J → W → Option (Outcome R)) → Polled J R W → Option (Outcome R)
    after_woken again none = none
    after_woken again (some (unwound, j, w)) = some unwound
    after_woken again (some (returned pending, j, w)) = if will_wake w then again j w else none
    after_woken again (some (returned (ready r), j, w)) = some (returned r)

    -- At most `n` polls; `none` means that more are needed, that a poll ran out of fuel, or that
    -- the task is pending and nothing will wake it.
    unfoldable pub block_on_woken :
        (J → W → Polled J R W) → (W → W) → ℕ → J → W → Option (Outcome R)
    unfolding after_woken
    block_on_woken poll between zero j w = none
    block_on_woken poll between (suc n) j w =
        after_woken (λ j' w'. block_on_woken poll between n j' (between w')) (poll j w)

    -- What a poll owes to such a task.
    abbrev pub Calls : (J → Type 0) → Polled J R W → Type 0
    Calls Inv a = IfAnyPending (λ j w. (will_wake w ≡ true) × Inv j) a

    after_woken-after_poll :
        (Inv : J → Type 0) (again again' : J → W → Option (Outcome R))
        → ((j : J) (w : W) → Inv j → again j w ≡ again' j w)
        → (a : Polled J R W) → Calls Inv a
        → after_woken again a ≡ after_poll again' a
    unfolding after_woken after_poll
    after_woken-after_poll Inv again again' ih none h = refl
    after_woken-after_poll Inv again again' ih (some (unwound, j, w)) h = refl
    after_woken-after_poll Inv again again' ih (some (returned pending, j, w)) h =
        rw (h.0) (ih j w h.1)
    after_woken-after_poll Inv again again' ih (some (returned (ready r), j, w)) h = refl

    -- A future whose pending polls all arrange a wake-up runs as under an executor that always
    -- polls again.
    pub block_on_woken-block_on :
        (Inv : J → Type 0) (poll : J → W → Polled J R W) (between : W → W)
        → ((j : J) (w : W) → Inv j → Calls Inv (poll j w))
        → (n : ℕ) (j : J) (w : W) → Inv j
        → block_on_woken poll between n j w ≡ block_on poll between n j w
    unfolding block_on_woken block_on
    block_on_woken-block_on Inv poll between calls zero j w i = refl
    block_on_woken-block_on Inv poll between calls (suc n) j w i =
        after_woken-after_poll Inv (λ j' w'. block_on_woken poll between n j' (between w'))
          (λ j' w'. block_on poll between n j' (between w'))
          (λ j' w' i'. block_on_woken-block_on Inv poll between calls n j' (between w') i')
          (poll j w) (calls j w i)

    module _ (Good : R → Type 0) (Left : ℕ → J → Type 0) where
      -- What one poll owes: with at most `suc n` polls left it ends, or leaves `n` and a wake-up.
      abbrev pub Nearer : ℕ → Polled J R W → Type 0
      Nearer n none = ⊥
      Nearer n (some (unwound, j, w)) = ⊥
      Nearer n (some (returned pending, j, w)) = (will_wake w ≡ true) × Left n j
      Nearer n (some (returned (ready r), j, w)) = Good r

      after_woken-Ends :
          (n : ℕ) (again : J → W → Option (Outcome R))
          → ((j : J) (w : W) → Left n j → Ends Good (again j w))
          → (a : Polled J R W) → Nearer n a
          → Ends Good (after_woken again a)
      unfolding after_woken
      after_woken-Ends n again ih none h = h
      after_woken-Ends n again ih (some (unwound, j, w)) h = h
      after_woken-Ends n again ih (some (returned pending, j, w)) h = rw (h.0) (ih j w h.1)
      after_woken-Ends n again ih (some (returned (ready r), j, w)) h = h

      pub block_on_woken-Ends :
          (poll : J → W → Polled J R W) (between : W → W)
          → ((j : J) → Left 0 j → ⊥)
          → ((n : ℕ) (j : J) (w : W) → Left (suc n) j → Nearer n (poll j w))
          → (n : ℕ) (j : J) (w : W) → Left n j
          → Ends Good (block_on_woken poll between n j w)
      unfolding block_on_woken
      block_on_woken-Ends poll between none_left step zero j w h = absurd (none_left j h)
      block_on_woken-Ends poll between none_left step (suc n) j w h =
          after_woken-Ends n (λ j' w'. block_on_woken poll between n j' (between w'))
            (λ j' w' h'. block_on_woken-Ends poll between none_left step n j' (between w') h')
            (poll j w) (step n j w h)
