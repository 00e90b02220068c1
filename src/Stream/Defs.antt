-- ===== src/Stream/Defs.antt =====
-- What the adapters use of their inputs: a stream of results, polled in a world that holds whatever
-- polls read and change, the waker of the task included.
use cancel_safe_futures.Base.{
  Outcome, returned, unwound, ℕ, ◌<◌, ◌≤◌, ◌≡◌, List, [], ◌∷◌, Option, none, some, Result, ok, err,
  Poll, pending, ready,
}

-- `TryStream`, given by the caller.
pub record TryStream (W A E : Type 0) : Type 1 where
  pub Stream : Type 0
  pub try_poll_next : Stream → W → Outcome (Poll (Option (Result A E))) × Stream × W

module _ {W A E : Type 0} (st : TryStream W A E) where
  -- A poll follows the items `rest` that are still to come. One that panics gives none of them.
  abbrev pub Follows :
      (st.Stream → List (Result A E))
      → List (Result A E)
      → Outcome (Poll (Option (Result A E))) × st.Stream × W
      → Type 0
  Follows rest items (returned pending, s, w) = rest s ≡ items
  Follows rest items (returned (ready (some x)), s, w) = items ≡ x ∷ rest s
  Follows rest items (returned (ready none), s, w) = (items ≡ []) × (rest s ≡ [])
  Follows rest items (unwound, s, w) = rest s ≡ items

  -- A stream that yields finitely many items, then ends. It may be pending or panic in between.
  pub record IsFinite : Type 0 where
    pub rest : st.Stream → List (Result A E)
    pub follows : (s : st.Stream) (w : W) → Follows rest (rest s) (st.try_poll_next s w)

-- A poll that does not panic.
abbrev pub IsCalm : {R S W : Type 0} → Outcome R × S × W → Type 0
IsCalm (unwound, s, w) = ⊥
IsCalm (returned r, s, w) = Unit

-- `if first_error.is_none() { first_error = Some(e) }`
abbrev pub keep_first : {E : Type 0} → Option E → E → Option E
keep_first none e = some e
keep_first (some d) e = some d

module _ {A E : Type 0} where
  -- The successes among the items, in order.
  abbrev pub oks : List (Result A E) → List A
  oks [] = []
  oks (ok a ∷ items) = a ∷ oks items
  oks (err e ∷ items) = oks items

  -- The first error: the one at hand, or else that of the items.
  abbrev pub first_err : Option E → List (Result A E) → Option E
  first_err found [] = found
  first_err found (ok a ∷ items) = first_err found items
  first_err found (err e ∷ items) = first_err (keep_first found e) items

-- The first error, or else what was collected.
abbrev pub verdict_of : {C E : Type 0} → Option E → C → Result C E
verdict_of none c = ok c
verdict_of (some e) c = err e

-- A count of the polls of a stream that will be pending: each such poll lowers it. None panics.
abbrev pub Pauses : {S R W : Type 0} → (S → ℕ) → ℕ → Outcome (Poll R) × S × W → Type 0
Pauses pauses n (returned pending, s, w) = pauses s < n
Pauses pauses n (returned (ready r), s, w) = pauses s ≤ n
Pauses pauses n (unwound, s, w) = ⊥
