-- ===== src/JoinMacro/Sizes.antt =====
-- src/macros/join_then_try.rs: a poll keeps the number of branches.
use cancel_safe_futures.Base.{
  ◌+◌, ◌≡◌, refl, ap, Bool, true, false, List, [], ◌∷◌, ◌++◌, length, length-append, Result, Poll,
  Outcome, suc, arith,
}
use cancel_safe_futures.Future.MaybeDone.{Stage, MaybeDone, views}
use cancel_safe_futures.Future.Round.{poll_all, length-poll_all}
use cancel_safe_futures.JoinMacro.Loop.{then_front, poll_rotated}

module _ {W F A E : Type 0} {poll_future : F → W → Outcome (Poll (Result A E)) × F × W}
    (maybe : MaybeDone W F (Result A E) poll_future) where
  pub length-views : (cs : List maybe.Cell) → length (views maybe cs) ≡ length cs
  length-views [] = refl
  length-views (c ∷ cs) = ap (λ n. suc n) (length-views cs)

  length-then_front :
      (vf : List (Stage F (Result A E))) (q : Bool × List (Stage F (Result A E)) × W)
      → length (then_front maybe vf q).1 ≡ length vf + length q.1
  length-then_front vf (true, sb, w) = length-append vf sb
  length-then_front vf (false, sb, w) =
      omega
        (arith, length-append (poll_all poll_future vf w).1 sb, length-poll_all poll_future vf w)

  pub length-poll_rotated :
      (front back : List maybe.Cell) (w : W)
      → length (poll_rotated maybe front back w).1 ≡ length (front ++ back)
  length-poll_rotated front back w =
      let q = poll_all poll_future (views maybe back) w in
      omega (
        arith,
        length-then_front (views maybe front) q,
        length-append front back,
        length-poll_all poll_future (views maybe back) w,
        length-views front,
        length-views back,
      )
