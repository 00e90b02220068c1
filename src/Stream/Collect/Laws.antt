-- ===== src/Stream/Collect/Laws.antt =====
-- What `CollectThenTry::poll` answers on a stream that yields finitely many items.
use cancel_safe_futures.Base.{
  refl, Outcome, returned, unwound, ℕ, zero, suc, ◌≤◌, ◌<◌, ◌≡◌, List, [], ◌∷◌, length, Option,
  none, some, Result, ok, err, Poll, pending, ready, arith,
}
use cancel_safe_futures.Stream.Defs.{
  TryStream, Follows, IsFinite, IsCalm, keep_first, first_err, verdict_of,
}
use cancel_safe_futures.Stream.Collect.Defs.{
  Collection, CollectThenTry, Answer, finish, after_extend, after_item, poll,
}

-- The successes among the items, added one after the other.
abbrev pub collected : {A E C : Type 0} → Collection C A → C → List (Result A E) → C
collected col c [] = c
collected col c (ok a ∷ items) = collected col (col.extend c a).1 items
collected col c (err e ∷ items) = collected col c items

module _ {W A E C : Type 0} (st : TryStream W A E) (col : Collection C A) (fin : IsFinite st) where
  -- The result that a state is heading for: the first error of all, or else all successes.
  abbrev pub verdict : CollectThenTry st col → Result C E
  verdict s =
      verdict_of (first_err s.first_error (fin.rest s.stream))
        (collected col s.items (fin.rest s.stream))

  abbrev pub Collects : CollectThenTry st col → Option (Answer st col) → Type 0
  Collects s none = ⊥
  Collects s (some (returned pending, s', w)) =
      (verdict s' ≡ verdict s) × (length (fin.rest s'.stream) ≤ length (fin.rest s.stream))
  Collects s (some (unwound, s', w)) =
      (verdict s' ≡ verdict s) × (length (fin.rest s'.stream) ≤ length (fin.rest s.stream))
  Collects s (some (returned (ready r), s', w)) = (r ≡ verdict s) × (fin.rest s'.stream ≡ [])

  -- A round of the loop heads for the same result.
  Collects-trans :
      (s s1 : CollectThenTry st col) (a : Option (Answer st col))
      → verdict s1 ≡ verdict s
      → length (fin.rest s1.stream) ≤ length (fin.rest s.stream)
      → Collects s1 a
      → Collects s a
  Collects-trans s s1 none e l h = h
  Collects-trans s s1 (some (returned pending, s', w)) e l h = ground arith
  Collects-trans s s1 (some (unwound, s', w)) e l h = ground arith
  Collects-trans s s1 (some (returned (ready r), s', w)) e l h = ground arith

  finish_lem :
      (s : CollectThenTry st col) (w : W)
      → fin.rest s.stream ≡ []
      → let (r, s') = finish st col s s.first_error in Collects s (some (returned (ready r), s', w))
  unfolding finish
  finish_lem s w e = ground arith

  after_extend_lem :
      (n : ℕ) (again : CollectThenTry st col → W → Option (Answer st col))
      → ((s : CollectThenTry st col) (w : W)
          → length (fin.rest s.stream) < n
          → Collects s (again s w))
      → (s : CollectThenTry st col) (r : Outcome (Unit {0}) × C) (w : W)
      → length (fin.rest s.stream) < n
      → Collects (record s { items = r.1 }) (after_extend st col again s r w)
  unfolding after_extend
  after_extend_lem n again ih s (unwound, c) w h = (refl, omega arith)
  after_extend_lem n again ih s (returned u, c) w h = ih (record s { items = c }) w h

  after_item_lem :
      (n : ℕ) (again : CollectThenTry st col → W → Option (Answer st col))
      → ((s : CollectThenTry st col) (w : W)
          → length (fin.rest s.stream) < n
          → Collects s (again s w))
      → (s : CollectThenTry st col) (r : Outcome (Poll (Option (Result A E))) × st.Stream × W)
      → Follows st fin.rest (fin.rest s.stream) r
      → length (fin.rest s.stream) < suc n
      → Collects s (after_item st col again s r)
  unfolding after_item
  after_item_lem n again ih s (returned pending, x, w) f h = ground arith
  after_item_lem n again ih s (unwound, x, w) f h = ground arith
  after_item_lem n again ih s (returned (ready (some (ok a))), x, w) f h =
      let s1 : CollectThenTry st col = record s { stream = x; items = (col.extend s.items a).1 } in
      let s0 : CollectThenTry st col = record s { stream = x } in
      Collects-trans s s1 (after_extend st col again s0 (col.extend s.items a) w) (ground arith)
        (ground arith) (after_extend_lem n again ih s0 (col.extend s.items a) w (ground arith))
  after_item_lem n again ih s (returned (ready (some (err e))), x, w) f h =
      let s1 : CollectThenTry st col = record s {
        stream = x;
        first_error = keep_first s.first_error e;
      } in
      Collects-trans s s1 (again s1 w) (ground arith) (ground arith) (ih s1 w (ground arith))
  after_item_lem n again ih s (returned (ready none), x, w) f h = ground arith

  -- One poll ends: fuel above the number of items to come is enough. If it is ready, the stream has
  -- run to its end, and the result is the first error among those at hand and those of all items,
  -- or else the collection of all successes. If it is pending, or if the stream or `extend` panics,
  -- the state is heading for the same result, with the collection that `extend` left.
  pub poll-Collects :
      (n : ℕ) (s : CollectThenTry st col) (w : W)
      → length (fin.rest s.stream) < n
      → Collects s (poll st col n s w)
  unfolding poll
  poll-Collects zero s w h = absurd (omega arith)
  poll-Collects (suc n) s w h =
      after_item_lem n (poll st col n) (poll-Collects n) s (st.try_poll_next s.stream w)
        (fin.follows s.stream w) h

module _ {W A E C : Type 0} (st : TryStream W A E) (col : Collection C A) where
  abbrev pub ExtendIsCalm : Outcome (Unit {0}) × C → Type 0
  ExtendIsCalm (unwound, c) = ⊥
  ExtendIsCalm (returned u, c) = Unit

  -- No call of `extend` panics.
  abbrev pub NeverPanics : Type 0
  NeverPanics = (c : C) (a : A) → ExtendIsCalm (col.extend c a)

  abbrev pub AnswerIsCalm : Option (Answer {E = E} st col) → Type 0
  AnswerIsCalm none = Unit
  AnswerIsCalm (some a) = IsCalm a

  after_extend-AnswerIsCalm :
      (again : CollectThenTry {E = E} st col → W → Option (Answer st col))
      → ((s : CollectThenTry st col) (w : W) → AnswerIsCalm (again s w))
      → (s : CollectThenTry st col) (r : Outcome (Unit {0}) × C) (w : W) → ExtendIsCalm r
      → AnswerIsCalm (after_extend st col again s r w)
  unfolding after_extend
  after_extend-AnswerIsCalm again ih s (unwound, c) w h = h
  after_extend-AnswerIsCalm again ih s (returned u, c) w h = ih _ w

  after_item-AnswerIsCalm :
      NeverPanics
      → (again : CollectThenTry st col → W → Option (Answer st col))
      → ((s : CollectThenTry st col) (w : W) → AnswerIsCalm (again s w))
      → (s : CollectThenTry st col) (r : Outcome (Poll (Option (Result A E))) × st.Stream × W)
      → IsCalm r
      → AnswerIsCalm (after_item st col again s r)
  unfolding after_item
  after_item-AnswerIsCalm quiet again ih s (unwound, x, w) h = h
  after_item-AnswerIsCalm quiet again ih s (returned pending, x, w) h = tt
  after_item-AnswerIsCalm quiet again ih s (returned (ready none), x, w) h = tt
  after_item-AnswerIsCalm quiet again ih s (returned (ready (some (ok a))), x, w) h =
      after_extend-AnswerIsCalm again ih (record s { stream = x }) (col.extend s.items a) w
        (quiet s.items a)
  after_item-AnswerIsCalm quiet again ih s (returned (ready (some (err e))), x, w) h = ih _ w

  -- If neither the stream nor `extend` ever panics, no poll of the adapter does.
  pub poll-AnswerIsCalm :
      NeverPanics
      → ((s : st.Stream) (w : W) → IsCalm (st.try_poll_next s w))
      → (n : ℕ) (s : CollectThenTry st col) (w : W) → AnswerIsCalm (poll st col n s w)
  unfolding poll
  poll-AnswerIsCalm quiet calm zero s w = tt
  poll-AnswerIsCalm quiet calm (suc n) s w =
      after_item-AnswerIsCalm quiet (poll st col n) (poll-AnswerIsCalm quiet calm n) s
        (st.try_poll_next s.stream w) (calm s.stream w)
