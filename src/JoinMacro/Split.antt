-- ===== src/JoinMacro/Split.antt =====
-- A list that is cut in two, as a poll of `join_then_try!` goes through it.
use cancel_safe_futures.Base.{ℕ, zero, suc, ◌<◌, ◌≡◌, refl, ap, List, [], ◌∷◌, ◌++◌, length, arith}
use cancel_safe_futures.Future.MaybeDone.{Stage, future, done, gone}
use cancel_safe_futures.Future.Promise.{promised}

-- A list that is cut where `k` elements come before.
pub record Cut {C : Type 0} (cs : List C) (k : ℕ) : Type 0 where
  pub front : List C
  pub at : C
  pub back : List C
  pub whole : cs ≡ front ++ at ∷ back
  pub before : k ≡ length front

pub cut : {C : Type 0} (cs : List C) (k : ℕ) → k < length cs → Cut cs k
cut [] k h = absurd (omega arith)
cut (c ∷ cs) zero h = record { front = []; at = c; back = cs; whole = refl; before = refl }
cut (c ∷ cs) (suc k) h =
    let rest = cut cs k (omega arith) in
    record {
      front = c ∷ rest.front;
      at = rest.at;
      back = rest.back;
      whole = ap (λ x. c ∷ x) rest.whole;
      before = ap (λ n. suc n) rest.before;
    }

pub promised-append :
    {F Out : Type 0} (out : F → Out) (ss ts : List (Stage F Out))
    → promised out (ss ++ ts) ≡ promised out ss ++ promised out ts
promised-append out [] ts = refl
promised-append out (future f ∷ ss) ts = ap (λ os. out f ∷ os) (promised-append out ss ts)
promised-append out (done o ∷ ss) ts = ap (λ os. o ∷ os) (promised-append out ss ts)
promised-append out (gone ∷ ss) ts = promised-append out ss ts
