-- ===== src/Future/Waking.antt =====
-- Which wake-ups a round over several cells leaves arranged. What it is for a future to have
-- arranged that the task is woken is a predicate of the caller.
use cancel_safe_futures.Base.{
  Bool, true, false, List, [], ◌∷◌, ◌++◌, Option, none, some, Poll, pending, ready, Outcome,
  returned, unwound,
}
use cancel_safe_futures.Future.MaybeDone.{Stage, future, done, gone, settled}
use cancel_safe_futures.Future.Round.{poll_all, go_on}

-- A poll that is pending leaves a state and a world such that `P`.
abbrev pub IfPending : {R S W : Type 0} → (S → W → Type 0) → Outcome (Poll R) × S × W → Type 0
IfPending P (returned pending, s, w) = P s w
IfPending P (returned (ready r), s, w) = Unit
IfPending P (unwound, s, w) = Unit

-- The same of an answer, if there is one.
abbrev pub IfAnyPending :
    {R S W : Type 0} → (S → W → Type 0) → Option (Outcome (Poll R) × S × W) → Type 0
IfAnyPending P none = Unit
IfAnyPending P (some a) = IfPending P a

module _ {F Out W : Type 0} (armed : F → W → Type 0) where
  -- The contract of a poll in the world `before`: if it is pending, the wake-up is arranged; and
  -- unless it panics, it undoes no wake-up that another has arranged.
  abbrev pub Arms : W → Outcome (Poll Out) × F × W → Type 0
  Arms before (unwound, f, w) = Unit
  Arms before (returned pending, f, w) = armed f w × ((g : F) → armed g before → armed g w)
  Arms before (returned (ready o), f, w) = (g : F) → armed g before → armed g w

  -- Every future that still runs has arranged that the task is woken.
  abbrev pub AllArmed : List (Stage F Out) → W → Type 0
  AllArmed [] w = Unit
  AllArmed (future f ∷ ss) w = armed f w × AllArmed ss w
  AllArmed (done o ∷ ss) w = AllArmed ss w
  AllArmed (gone ∷ ss) w = AllArmed ss w

  pub AllArmed-append :
      (ss ts : List (Stage F Out)) (w : W) → AllArmed ss w → AllArmed ts w → AllArmed (ss ++ ts) w
  AllArmed-append [] ts w h k = k
  AllArmed-append (future f ∷ ss) ts w h k = (h.0, AllArmed-append ss ts w h.1 k)
  AllArmed-append (done o ∷ ss) ts w h k = AllArmed-append ss ts w h k
  AllArmed-append (gone ∷ ss) ts w h k = AllArmed-append ss ts w h k

  pub AllArmed-map :
      (ss : List (Stage F Out)) (v w : W)
      → ((g : F) → armed g v → armed g w)
      → AllArmed ss v
      → AllArmed ss w
  AllArmed-map [] v w keep h = tt
  AllArmed-map (future f ∷ ss) v w keep h = (keep f h.0, AllArmed-map ss v w keep h.1)
  AllArmed-map (done o ∷ ss) v w keep h = AllArmed-map ss v w keep h
  AllArmed-map (gone ∷ ss) v w keep h = AllArmed-map ss v w keep h

  -- What a round leaves that began in the world `w` and did not panic.
  abbrev pub Rearms : W → Bool × List (Stage F Out) × W → Type 0
  Rearms w (true, ss, w') = Unit
  Rearms w (false, ss, w') = AllArmed ss w' × ((g : F) → armed g w → armed g w')

  -- A cell, polled from the world `w` to `v`, and the rest of the round.
  Rearms-cons :
      (w v : W) (s : Stage F Out) (r : Bool × List (Stage F Out) × W)
      → AllArmed (s ∷ []) v
      → ((g : F) → armed g w → armed g v)
      → Rearms v r
      → Rearms w (r.0, s ∷ r.1, r.2)
  Rearms-cons w v s (true, ss, w') a keep h = tt
  Rearms-cons w v s (false, ss, w') a keep h = (
    AllArmed-append (s ∷ []) ss w' (AllArmed-map (s ∷ []) v w' h.1 a) h.0,
    λ g b. h.1 g (keep g b),
  )

  module _ (poll_future : F → W → Outcome (Poll Out) × F × W)
      (arms : (f : F) (w : W) → Arms w (poll_future f w)) where
    go_on-Rearms :
        (rest : W → Bool × List (Stage F Out) × W) (ss : List (Stage F Out)) (w : W)
        (r : Outcome (Poll Out) × F × W)
        → ((v : W) → Rearms v (rest v))
        → Arms w r
        → Rearms w (go_on poll_future rest ss (settled r))
    go_on-Rearms rest ss w (unwound, f, v) ih h = tt
    go_on-Rearms rest ss w (returned pending, f, v) ih h =
        Rearms-cons w v (future f) (rest v) (h.0, tt) h.1 (ih v)
    go_on-Rearms rest ss w (returned (ready o), f, v) ih h =
        Rearms-cons w v (done o) (rest v) tt h (ih v)

    pub poll_all-Rearms : (ss : List (Stage F Out)) (w : W) → Rearms w (poll_all poll_future ss w)
    unfolding poll_all
    poll_all-Rearms [] w = (tt, λ g a. a)
    poll_all-Rearms (gone ∷ ss) w = tt
    poll_all-Rearms (done o ∷ ss) w =
        Rearms-cons w w (done o) (poll_all poll_future ss w) tt (λ g a. a) (poll_all-Rearms ss w)
    poll_all-Rearms (future f ∷ ss) w =
        go_on-Rearms (poll_all poll_future ss) ss w (poll_future f w) (poll_all-Rearms ss)
          (arms f w)
