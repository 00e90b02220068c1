-- ===== src/Poison/Reports.antt =====
-- src/sync/poison.rs: what `borrow` reads after any sequence of calls of `done`.
use cancel_safe_futures.Base.{
  ◌≡◌, inl, inr, refl, Bool, true, false, not, ◌&&◌, ◌||◌, List, [], ◌∷◌, ok, err, arith,
}
use cancel_safe_futures.Poison.Error.{
  panic_poison, cancel_poison, has_bit, LockResult, is_panic, is_cancel,
}
use cancel_safe_futures.Poison.Flag.{Flag, Guard, new, borrow, done}
use cancel_safe_futures.Poison.Laws.{IsFlag, new-IsFlag, done-has_bit, borrow_lem}

-- The arguments of a call of `done`.
pub record Report : Type 0 where
  pub guard : Guard
  pub panicking : Bool
  pub cancel : Bool

-- The panic began after the guard was made.
abbrev pub is_new_panic : Report → Bool
is_new_panic r = not r.guard.panicking && r.panicking

abbrev pub any_panic : List Report → Bool
any_panic [] = false
any_panic (r ∷ rs) = is_new_panic r || any_panic rs

abbrev pub any_cancel : List Report → Bool
any_cancel [] = false
any_cancel (r ∷ rs) = r.cancel || any_cancel rs

abbrev pub done_all : Flag → List Report → Flag
done_all f [] = f
done_all f (r ∷ rs) = done_all (done f r.guard r.panicking r.cancel) rs

-- An answer of `borrow` that names these causes.
abbrev pub Reads : Bool → Bool → LockResult (Unit {0}) → Type 0
Reads panic cancel (ok u) = (panic ≡ false) × (cancel ≡ false)
Reads panic cancel (err e) =
    (is_panic e ≡ panic) × (is_cancel e ≡ cancel) × ((panic || cancel) ≡ true)

borrow-Reads :
    (f : Flag)
    → IsFlag f
    → Reads (has_bit f.failed panic_poison) (has_bit f.failed cancel_poison) (borrow f)
borrow-Reads f h = elim (borrow_lem f h) [
  | inl (z, e) ↦ rw (e, z) (refl, refl)
  | inr (e, b, p, c, any) ↦ rw b ground (arith, p, c, any)
]

done_all-Reads :
    (f : Flag) (rs : List Report)
    → IsFlag f
    → Reads
        (has_bit f.failed panic_poison || any_panic rs)
        (has_bit f.failed cancel_poison || any_cancel rs)
        (borrow (done_all f rs))
done_all-Reads f [] h = ground (arith, borrow-Reads f h)
done_all-Reads f (r ∷ rs) h =
    let d = done-has_bit f r.guard r.panicking r.cancel h in
    ground (arith, d, done_all-Reads (done f r.guard r.panicking r.cancel) rs d.2)

-- What was reported is what is read. After any sequence of calls of `done` on a new flag, `borrow`
-- succeeds exactly if none of them had a cause to report; otherwise its error names a panic exactly
-- if some call found a panic that began after its guard was made, and a cancellation exactly if
-- some call was told of one.
pub borrow-done_all :
    (rs : List Report) → Reads (any_panic rs) (any_cancel rs) (borrow (done_all new rs))
unfolding new
borrow-done_all rs = done_all-Reads new rs new-IsFlag
