-- ===== src/JoinMacro/Macro.antt =====
-- src/macros/join_then_try.rs: the arms of the macro, from the expressions to the future.
use cancel_safe_futures.Base.{
  ℕ, zero, suc, ◌+◌, ◌≡◌, refl, sym, ap, ◌∙◌, List, [], ◌∷◌, ◌++◌, append_assoc, append-nil, length,
  Option, none, some, Result, ok, Poll, Outcome, returned, unwound, arith,
}
use mathlib.Core.Path.{ap₂}
use cancel_safe_futures.Future.MaybeDone.{MaybeDone}
use cancel_safe_futures.Future.Executor.{after_poll, block_on}
use cancel_safe_futures.JoinMacro.Defs.{JoinThenTry, join_then_try, poll, Answer}

module _ {F : Type 0} where
  -- The normalizing arm. A branch has the number of `_` before its own field of the tuple; `count`
  -- is that number for the next branch, `total` the value of `0 + 1 + 1 + …`.
  unfoldable pub normalize : ℕ → ℕ → List (ℕ × F) → List F → ℕ × List (ℕ × F)
  normalize count total branches [] = (total, branches)
  normalize count total branches (e ∷ es) =
      normalize (suc count) (total + 1) (branches ++ (count, e) ∷ []) es

  abbrev pub exprs : List (ℕ × F) → List F
  exprs [] = []
  exprs ((skip, e) ∷ branches) = e ∷ exprs branches

  -- Each expression with its position.
  abbrev pub positions : ℕ → List F → List (ℕ × F)
  positions k [] = []
  positions k (e ∷ es) = (k, e) ∷ positions (suc k) es

  normalize_lem :
      (count total : ℕ) (branches : List (ℕ × F)) (es : List F)
      → normalize count total branches es ≡ (total + length es, branches ++ positions count es)
  unfolding normalize
  normalize_lem count total branches [] =
      ap₂ (λ x y. (x, y)) (omega arith) (sym (append-nil branches))
  normalize_lem count total branches (e ∷ es) =
      normalize_lem (suc count) (total + 1) (branches ++ (count, e) ∷ []) es
      ∙ ap₂ (λ x y. (x, y)) (omega arith)
          (append_assoc branches ((count, e) ∷ []) (positions (suc count) es))

  -- The branches get the positions of their expressions, and the total is their number.
  pub normalize-positions : (es : List F) → normalize 0 0 [] es ≡ (length es, positions 0 es)
  normalize-positions es =
      let size : 0 + length es ≡ length es = omega arith in
      normalize_lem 0 0 [] es ∙ ap (λ n. (n, positions 0 es)) size

  exprs-positions : (k : ℕ) (es : List F) → exprs (positions k es) ≡ es
  exprs-positions k [] = refl
  exprs-positions k (e ∷ es) = ap (λ r. e ∷ r) (exprs-positions (suc k) es)

module _ {W F A E : Type 0} {poll_future : F → W → Outcome (Poll (Result A E)) × F × W}
    (maybe : MaybeDone W F (Result A E) poll_future) where
  -- What the macro expands to: `async { Ok(()) }`, or the future of `poll_fn`.
  pub data Expansion : Type 0 where
    at_once : Expansion
    joined : JoinThenTry maybe → Expansion

  unfoldable pub expand : List F → Expansion
  unfolding normalize
  expand [] = at_once
  expand (e ∷ es) = joined (join_then_try maybe (exprs (normalize 0 0 [] (e ∷ es)).1))

  abbrev pub as_joined :
      Option (Answer maybe) → Option (Outcome (Poll (Result (List A) E)) × Expansion × W)
  as_joined none = none
  as_joined (some (out, j, w)) = some (out, joined j, w)

  unfoldable pub poll_expansion :
      Expansion → W → Option (Outcome (Poll (Result (List A) E)) × Expansion × W)
  poll_expansion at_once w = some (returned (Poll.ready (ok [])), at_once, w)
  poll_expansion (joined j) w = as_joined (poll maybe 2 j w)

  pub expand-join_then_try :
      (e : F) (es : List F) → expand (e ∷ es) ≡ joined (join_then_try maybe (e ∷ es))
  unfolding expand
  expand-join_then_try e es =
      ap (λ (r : ℕ × List (ℕ × F)). joined (join_then_try maybe (exprs r.1)))
        (normalize-positions (e ∷ es))
      ∙ ap (λ fs. joined (join_then_try maybe fs)) (exprs-positions 0 (e ∷ es))

  after_poll-joined :
      (again : Expansion → W → Option (Outcome (Result (List A) E)))
      (again' : JoinThenTry maybe → W → Option (Outcome (Result (List A) E)))
      → ((j : JoinThenTry maybe) (w : W) → again (joined j) w ≡ again' j w)
      → (a : Option (Answer maybe)) → after_poll again (as_joined a) ≡ after_poll again' a
  unfolding after_poll
  after_poll-joined again again' h none = refl
  after_poll-joined again again' h (some (unwound, j, w)) = refl
  after_poll-joined again again' h (some (returned Poll.pending, j, w)) = h j w
  after_poll-joined again again' h (some (returned (Poll.ready r), j, w)) = refl

  -- Awaiting the expansion is awaiting the future of `poll_fn`.
  pub block_on-joined :
      (between : W → W) (n : ℕ) (j : JoinThenTry maybe) (w : W)
      → block_on poll_expansion between n (joined j) w ≡ block_on (poll maybe 2) between n j w
  unfolding block_on poll_expansion
  block_on-joined between zero j w = refl
  block_on-joined between (suc n) j w =
      after_poll-joined (λ k v. block_on poll_expansion between n k (between v))
        (λ k v. block_on (poll maybe 2) between n k (between v))
        (λ k v. block_on-joined between n k (between v)) (poll maybe 2 j w)
