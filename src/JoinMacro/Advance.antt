-- ===== src/JoinMacro/Advance.antt =====
-- src/macros/join_then_try.rs: a poll of the future that the macro builds brings its end nearer.
use mathlib.Core.Path.{subst, subst₂, ap₂}
use cancel_safe_futures.Base.{
  Outcome, ℕ, zero, suc, ◌<◌, ◌≡◌, ◌∙◌, sym, refl, ap, Bool, true, false, List, [], ◌∷◌, ◌++◌,
  length, length-append, Option, none, some, Result, Poll, returned, unwound, arith,
}
use cancel_safe_futures.Future.MaybeDone.{Stage, future, done, gone, MaybeDone, views, views-append}
use cancel_safe_futures.Future.Round.{poll_all, length-poll_all, all_ready, Intact, verdict}
use cancel_safe_futures.Future.Promise.{
  Settles, poll_all-calm, promised, outputs-promised, promised-poll_all, Finishes, Due,
  Due-all_ready, Due-append, poll_all-Due,
}
use cancel_safe_futures.Future.Executor.{Advanced}
use cancel_safe_futures.JoinMacro.Defs.{JoinThenTry, next_skip, poll, Answer}
use cancel_safe_futures.JoinMacro.Polling.{Joined, poll-Joined}
use cancel_safe_futures.JoinMacro.Sizes.{length-views}
use cancel_safe_futures.JoinMacro.Loop.{then_front}
use cancel_safe_futures.JoinMacro.Rotation.{next_skip_bound}
use cancel_safe_futures.JoinMacro.Split.{cut, promised-append}

module _ {W F A E : Type 0} {poll_future : F → W → Outcome (Poll (Result A E)) × F × W}
    (maybe : MaybeDone W F (Result A E) poll_future) where
  then_front-calm :
      (vf : List (Stage F (Result A E))) (q : Bool × List (Stage F (Result A E)) × W)
      → q.0 ≡ false
      → then_front maybe vf q
        ≡ (let (panics, sf, w) = poll_all poll_future vf q.2 in (panics, sf ++ q.1, w))
  then_front-calm vf (true, sb, w) h = cc
  then_front-calm vf (false, sb, w) h = refl

  Intact-split : (ss ts : List (Stage F (Result A E))) → Intact (ss ++ ts) → Intact ss × Intact ts
  Intact-split [] ts h = (tt, h)
  Intact-split (future f ∷ ss) ts h = Intact-split ss ts h
  Intact-split (done o ∷ ss) ts h = Intact-split ss ts h
  Intact-split (gone ∷ ss) ts h = absurd h

  module _ (left : F → ℕ) where
    Due-split :
        (n : ℕ) (ss ts : List (Stage F (Result A E)))
        → Due left n (ss ++ ts)
        → Due left n ss × Due left n ts
    Due-split n [] ts h = (tt, h)
    Due-split n (future f ∷ ss) ts h = let rest = Due-split n ss ts h.1 in ((h.0, rest.0), rest.1)
    Due-split n (done o ∷ ss) ts h = Due-split n ss ts h
    Due-split n (gone ∷ ss) ts h = Due-split n ss ts h

  module _ (out : F → Result A E) (settles : (f : F) (w : W) → Settles out f (poll_future f w))
      (left : F → ℕ) (finishes : (f : F) (w : W) → Finishes left f (poll_future f w)) where
    -- At most `n` polls are left, and the outputs will be `outs`.
    pub record Left (outs : List (Result A E)) (n : ℕ) (j : JoinThenTry maybe) : Type 0 where
      pub some_left : 0 < n
      pub inside : j.skip_next_time < length j.futures
      pub intact : Intact (views maybe j.futures)
      pub due : Due left n (views maybe j.futures)
      pub promise : promised out (views maybe j.futures) ≡ outs

    Joined-Advanced :
        (outs : List (Result A E)) (n count skip : ℕ) (panics all : Bool)
        (ss : List (Stage F (Result A E))) (w : W) (r : Option (Answer maybe))
        → skip < count
        → length ss ≡ count
        → panics ≡ false
        → all_ready ss ≡ all
        → Due left n ss
        → promised out ss ≡ outs
        → Joined maybe panics all ss w skip r
        → Advanced (verdict outs) (Left outs) n r
    Joined-Advanced outs n count skip true all ss w r i l q e d p j = cc
    Joined-Advanced outs n count skip false true ss w none i l q e d p j = absurd j
    Joined-Advanced outs n count skip false false ss w none i l q e d p j = absurd j
    Joined-Advanced outs n count skip false true ss w (some (returned (Poll.ready r), k, w')) i l q
          e d p j =
        ground (arith, outputs-promised poll_future out ss)
    Joined-Advanced outs n count skip false true ss w (some (returned Poll.pending, k, w')) i l q e
          d p j =
        cc (j.0)
    Joined-Advanced outs n count skip false true ss w (some (unwound, k, w')) i l q e d p j =
        cc (j.0)
    Joined-Advanced outs zero count skip false false ss w (some (returned Poll.pending, k, w')) i l
          q e d p j =
        let all = Due-all_ready left ss j.2 d in cc
    Joined-Advanced outs (suc n) count skip false false ss w (some (returned Poll.pending, k, w')) i
          l q e d p j =
        let same : length k.futures ≡ count =
          sym (length-views maybe k.futures) ∙ ap length j.1 ∙ l in
        record {
          some_left = omega arith;
          inside = omega (arith, j.3);
          intact = subst Intact (sym j.1) j.2;
          due = subst (Due left (suc n)) (sym j.1) d;
          promise = ap (promised out) j.1 ∙ p;
        }
    Joined-Advanced outs n count skip false false ss w (some (returned (Poll.ready r), k, w')) i l q
          e d p j =
        cc (j.0)
    Joined-Advanced outs n count skip false false ss w (some (unwound, k, w')) i l q e d p j =
        cc (j.0)

    poll_at :
        (outs : List (Result A E)) (n : ℕ) (front : List maybe.Cell) (b : maybe.Cell)
        (back : List maybe.Cell) (w : W)
        → let j : JoinThenTry maybe = record {
          futures = front ++ b ∷ back;
          skip_next_time = length front;
        } in
          Left outs (suc n) j → Advanced (verdict outs) (Left outs) n (poll maybe 2 j w)
    poll_at outs n front b back w h =
        let rest = b ∷ back in
        let vf = views maybe front in
        let vb = views maybe rest in
        let q = poll_all poll_future vb w in
        let (pf, sf, w2) = poll_all poll_future vf q.2 in
        let sb = q.1 in
        let count = length (front ++ rest) in
        let skip = next_skip count (length front) in
        let split = views-append maybe front rest in
        let i = Intact-split vf vb (subst Intact split h.intact) in
        let d = Due-split left (suc n) vf vb (subst (Due left (suc n)) split h.due) in
        let size : length (sf ++ sb) ≡ count = omega (
          arith,
          length-append sf sb,
          length-append front rest,
          length-poll_all poll_future vb w,
          length-poll_all poll_future vf q.2,
          length-views maybe front,
          length-views maybe rest,
        ) in
        let same : promised out (sf ++ sb) ≡ outs =
          promised-append out sf sb
          ∙ ap₂ (λ x y. x ++ y) (promised-poll_all poll_future out settles vf q.2)
              (promised-poll_all poll_future out settles vb w)
          ∙ sym (promised-append out vf vb)
          ∙ ap (promised out) (sym split)
          ∙ h.promise in
        let r =
          poll maybe 2 (record { futures = front ++ rest; skip_next_time = length front }) w in
        let joined : Joined maybe pf (all_ready (sf ++ sb)) (sf ++ sb) w2 skip r =
          subst
            (λ (x : Bool × List (Stage F (Result A E)) × W).
              Joined maybe x.0 (all_ready x.1) x.1 x.2 skip r)
            (then_front-calm vf q (poll_all-calm poll_future out settles vb w i.1))
            (poll-Joined maybe 0 front b back w) in
        Joined-Advanced outs n count skip pf (all_ready (sf ++ sb)) (sf ++ sb) w2 r
          (next_skip_bound count (length front) h.inside) size
          (poll_all-calm poll_future out settles vf q.2 i.0) refl
          (Due-append left n sf sb (poll_all-Due poll_future left finishes n vf q.2 i.0 d.0)
            (poll_all-Due poll_future left finishes n vb w i.1 d.1))
          same joined

    pub poll-Advanced :
        (outs : List (Result A E)) (n : ℕ) (j : JoinThenTry maybe) (w : W)
        → Left outs (suc n) j
        → Advanced (verdict outs) (Left outs) n (poll maybe 2 j w)
    poll-Advanced outs n j w h =
        let c = cut j.futures j.skip_next_time h.inside in
        subst₂
          (λ cs k.
            let i : JoinThenTry maybe = record { futures = cs; skip_next_time = k } in
            Left outs (suc n) i → Advanced (verdict outs) (Left outs) n (poll maybe 2 i w))
          (sym c.whole) (sym c.before) (poll_at outs n c.front c.at c.back w) h
