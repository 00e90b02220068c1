-- ===== src/Future/Promise.antt =====
-- Futures whose outputs do not depend on when they are polled, and that finish within a number of
-- polls.
use cancel_safe_futures.Base.{
  Outcome, returned, unwound, false, ℕ, suc, ◌<◌, ◌≡◌, refl, ap, true, List, [], ◌∷◌, ◌++◌, Poll,
  arith,
}
use cancel_safe_futures.Future.MaybeDone.{Stage, future, done, gone, advance}
use cancel_safe_futures.Future.Round.{poll_all, all_ready, Intact, outputs}

-- A future does not panic, and its output does not depend on when it is polled: `out f` is what `f`
-- will give.
abbrev pub Settles : {W F Out : Type 0} → (F → Out) → F → Outcome (Poll Out) × F × W → Type 0
Settles out f (returned Poll.pending, f', w) = out f' ≡ out f
Settles out f (returned (Poll.ready o), f', w) = o ≡ out f
Settles out f (unwound, f', w) = ⊥

-- The outputs that stages have or will have.
abbrev pub promised : {F Out : Type 0} → (F → Out) → List (Stage F Out) → List Out
promised out [] = []
promised out (future f ∷ ss) = out f ∷ promised out ss
promised out (done o ∷ ss) = o ∷ promised out ss
promised out (gone ∷ ss) = promised out ss

module _ {W F Out : Type 0} (poll_future : F → W → Outcome (Poll Out) × F × W) (out : F → Out) where
  pub outputs-promised :
      (ss : List (Stage F Out)) → all_ready ss ≡ true → outputs ss ≡ promised out ss
  outputs-promised [] h = refl
  outputs-promised (done o ∷ ss) h = ap (λ os. o ∷ os) (outputs-promised ss h)
  outputs-promised (future f ∷ ss) h = cc
  outputs-promised (gone ∷ ss) h = cc

  module _ (settles : (f : F) (w : W) → Settles out f (poll_future f w)) where
    pub promised-poll_all :
        (ss : List (Stage F Out)) (w : W)
        → promised out (poll_all poll_future ss w).1 ≡ promised out ss
    unfolding poll_all
    promised-poll_all [] w = refl
    promised-poll_all (done o ∷ ss) w = ap (λ os. o ∷ os) (promised-poll_all ss w)
    promised-poll_all (gone ∷ ss) w = refl
    promised-poll_all (future f ∷ ss) w =
        let (panics, s, w1) = advance poll_future (future f) w in
        ground (arith, settles f w, promised-poll_all ss w1)

    -- A round over such futures does not panic.
    pub poll_all-calm :
        (ss : List (Stage F Out)) (w : W) → Intact ss → (poll_all poll_future ss w).0 ≡ false
    unfolding poll_all
    poll_all-calm [] w h = refl
    poll_all-calm (done o ∷ ss) w h = poll_all-calm ss w h
    poll_all-calm (gone ∷ ss) w h = absurd h
    poll_all-calm (future f ∷ ss) w h =
        let (panics, s, w1) = advance poll_future (future f) w in
        ground (arith, settles f w, poll_all-calm ss w1 h)

-- A poll that is pending leaves fewer polls, by the count `left`; none panics.
abbrev pub Finishes : {W F Out : Type 0} → (F → ℕ) → F → Outcome (Poll Out) × F × W → Type 0
Finishes left f (returned Poll.pending, f', w) = left f' < left f
Finishes left f (returned (Poll.ready o), f', w) = Unit
Finishes left f (unwound, f', w) = ⊥

-- All futures are done after `n` polls.
abbrev pub Due : {F Out : Type 0} → (F → ℕ) → ℕ → List (Stage F Out) → Type 0
Due left n [] = Unit
Due left n (future f ∷ ss) = (left f < n) × Due left n ss
Due left n (done o ∷ ss) = Due left n ss
Due left n (gone ∷ ss) = Due left n ss

module _ {F Out : Type 0} (left : F → ℕ) where
  pub Due-all_ready : (ss : List (Stage F Out)) → Intact ss → Due left 0 ss → all_ready ss ≡ true
  Due-all_ready [] i d = refl
  Due-all_ready (future f ∷ ss) i d = absurd (omega arith)
  Due-all_ready (done o ∷ ss) i d = Due-all_ready ss i d
  Due-all_ready (gone ∷ ss) i d = absurd i

  pub Due-append :
      (n : ℕ) (ss ts : List (Stage F Out)) → Due left n ss → Due left n ts → Due left n (ss ++ ts)
  Due-append n [] ts d e = e
  Due-append n (future f ∷ ss) ts d e = (d.0, Due-append n ss ts d.1 e)
  Due-append n (done o ∷ ss) ts d e = Due-append n ss ts d e
  Due-append n (gone ∷ ss) ts d e = Due-append n ss ts d e

module _ {W F Out : Type 0} (poll_future : F → W → Outcome (Poll Out) × F × W) (left : F → ℕ)
    (finishes : (f : F) (w : W) → Finishes left f (poll_future f w)) where
  pub poll_all-Due :
      (n : ℕ) (ss : List (Stage F Out)) (w : W)
      → Intact ss
      → Due left (suc n) ss
      → Due left n (poll_all poll_future ss w).1
  unfolding poll_all
  poll_all-Due n [] w i d = tt
  poll_all-Due n (done o ∷ ss) w i d = poll_all-Due n ss w i d
  poll_all-Due n (gone ∷ ss) w i d = absurd i
  poll_all-Due n (future f ∷ ss) w i d =
      let (panics, s, w1) = advance poll_future (future f) w in
      ground (arith, finishes f w, poll_all-Due n ss w1 i d.1)

abbrev pub AllDue : {F : Type 0} → (F → ℕ) → ℕ → List F → Type 0
AllDue left n [] = Unit
AllDue left n (f ∷ fs) = (left f < n) × AllDue left n fs
