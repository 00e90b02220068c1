-- ===== src/JoinMacro/Run.antt =====
-- src/macros/join_then_try.rs: the future that the macro builds, awaited.
use cancel_safe_futures.Base.{
  Outcome, ℕ, zero, suc, ◌<◌, ◌≡◌, ◌∙◌, refl, ap, List, [], ◌∷◌, map, some, Result, Poll, returned,
  arith,
}
use cancel_safe_futures.Future.MaybeDone.{MaybeDone, views}
use cancel_safe_futures.Future.Round.{Intact, verdict}
use cancel_safe_futures.Future.Promise.{Settles, promised, Finishes, Due, AllDue}
use cancel_safe_futures.Future.Executor.{after_poll, block_on, block_on_lem}
use cancel_safe_futures.JoinMacro.Macro.{
  expand, poll_expansion, expand-join_then_try, block_on-joined,
}
use cancel_safe_futures.JoinMacro.Defs.{JoinThenTry, cells, join_then_try, poll}
use cancel_safe_futures.JoinMacro.Advance.{Left, poll-Advanced}

module _ {W F A E : Type 0} {poll_future : F → W → Outcome (Poll (Result A E)) × F × W}
    (maybe : MaybeDone W F (Result A E) poll_future) where
  module _ (out : F → Result A E) (settles : (f : F) (w : W) → Settles out f (poll_future f w))
      (left : F → ℕ) (finishes : (f : F) (w : W) → Finishes left f (poll_future f w)) where
    Left-zero :
        (outs : List (Result A E)) (j : JoinThenTry maybe)
        → Left maybe out settles left finishes outs 0 j
        → ⊥
    Left-zero outs j h = absurd (omega (arith, h.some_left))

    cells_lem :
        (n : ℕ) (fs : List F)
        → AllDue left n fs
        → Intact (views maybe (cells maybe fs))
          × Due left n (views maybe (cells maybe fs))
          × (promised out (views maybe (cells maybe fs)) ≡ map out fs)
    cells_lem n [] d = (tt, tt, refl)
    cells_lem n (f ∷ fs) d = ground (arith, maybe.view-new f, cells_lem n fs d.1)

    -- The future of `poll_fn`, with at least one branch, is ready after at most `n` polls if each
    -- of its branches is. The result is the first error in the order of the branches, or else all
    -- outputs in that order. The world may change between the polls.
    block_on-join_then_try :
        (between : W → W) (f : F) (fs : List F) (n : ℕ) (w : W)
        → AllDue left n (f ∷ fs)
        → block_on (poll maybe 2) between n (join_then_try maybe (f ∷ fs)) w
          ≡ some (returned (verdict (map out (f ∷ fs))))
    unfolding join_then_try
    block_on-join_then_try between f fs n w d =
        let outs = map out (f ∷ fs) in
        let new = cells_lem n (f ∷ fs) d in
        block_on_lem (verdict outs) (Left maybe out settles left finishes outs) (poll maybe 2)
          between (Left-zero outs) (poll-Advanced maybe out settles left finishes outs) n
          (join_then_try maybe (f ∷ fs)) w
          (record {
            some_left = omega arith;
            inside = omega arith;
            intact = new.0;
            due = new.1;
            promise = new.2;
          })

    -- `join_then_try!` of any list of futures, none included, is ready after at most `n` polls if
    -- each of them is. The result is the first error in the order of the branches, or else all
    -- outputs in that order. The world may change between the polls.
    pub block_on-expand :
        (between : W → W) (fs : List F) (n : ℕ) (w : W)
        → 0 < n
        → AllDue left n fs
        → block_on (poll_expansion maybe) between n (expand maybe fs) w
          ≡ some (returned (verdict (map out fs)))
    unfolding expand poll_expansion block_on after_poll
    block_on-expand between [] zero w h d = absurd (omega arith)
    block_on-expand between [] (suc n) w h d = refl
    block_on-expand between (f ∷ fs) n w h d =
        ap (λ x. block_on (poll_expansion maybe) between n x w) (expand-join_then_try maybe f fs)
        ∙ block_on-joined maybe between n (join_then_try maybe (f ∷ fs)) w
        ∙ block_on-join_then_try between f fs n w d
