-- ===== src/Poison/Laws.antt =====
-- src/sync/poison.rs: what the flag byte records, and what the errors built from it report.
use Prim.Native.String.{count}
use cancel_safe_futures.Base.{
  ℕ, zero, suc, ◌<◌, ◌≡◌, ◌⊎◌, inl, inr, refl, Bool, true, false, not, ◌&&◌, ◌||◌, ok, err, arith,
  ap, sym, ◌∙◌, ◌==◌, if◌then◌else◌,
}
use cancel_safe_futures.Poison.Error.{
  panic_poison, cancel_poison, has_bit, PoisonError, is_panic, is_cancel,
}
use cancel_safe_futures.Poison.Flag.{Flag, Guard, new, borrow, done, get_flags}
use cancel_safe_futures.Poison.Debug.{debug_flag, debug_flags}

-- Only the two bits that the crate knows are ever set.
abbrev pub IsFlag : Flag → Type 0
IsFlag f = f.failed < 4

pub new-IsFlag : IsFlag new
unfolding new
new-IsFlag = omega arith

-- A flag byte is nonzero exactly if one of its two bits is set.
pub any_bit : (n : ℕ) → n < 4 → not (n == 0) ≡ (has_bit n panic_poison || has_bit n cancel_poison)
any_bit zero h = refl
any_bit (suc zero) h = refl
any_bit (suc (suc zero)) h = refl
any_bit (suc (suc (suc zero))) h = refl
any_bit (suc (suc (suc (suc n)))) h = absurd (omega arith)

-- What `done` makes of the byte `n`: the guard's and the current thread's state decide one bit, the
-- argument the other, and no other bit appears.
abbrev AfterDone : ℕ → Bool → Bool → Bool → Type 0
AfterDone n before now cancel =
    let f : Flag = record { failed = n } in
    let r = (done f (record { panicking = before }) now cancel).failed in
    (has_bit r panic_poison ≡ (has_bit n panic_poison || (not before && now)))
    × (has_bit r cancel_poison ≡ (has_bit n cancel_poison || cancel))
    × (r < 4)

done_bits : (n : ℕ) (before now cancel : Bool) → n < 4 → AfterDone n before now cancel
unfolding done
done_bits zero before now cancel h = ground arith
done_bits (suc zero) before now cancel h = ground arith
done_bits (suc (suc zero)) before now cancel h = ground arith
done_bits (suc (suc (suc zero))) before now cancel h = ground arith
done_bits (suc (suc (suc (suc n)))) before now cancel h = absurd (omega arith)

-- `done` adds the panic bit exactly if the thread started to panic after the guard was made, adds
-- the cancel bit exactly if it is told to, keeps the bits that were set, and sets no third bit.
pub done-has_bit :
    (f : Flag) (guard : Guard) (panicking cancel : Bool)
    → IsFlag f
    → (has_bit (done f guard panicking cancel).failed panic_poison
        ≡ (has_bit f.failed panic_poison || (not guard.panicking && panicking)))
      × (has_bit (done f guard panicking cancel).failed cancel_poison
          ≡ (has_bit f.failed cancel_poison || cancel))
      × IsFlag (done f guard panicking cancel)
done-has_bit f guard panicking cancel h = done_bits f.failed guard.panicking panicking cancel h

-- What `borrow` answers on the byte `n`.
abbrev Borrowed : ℕ → Type 0
Borrowed n =
    let f : Flag = record { failed = n } in
    ((n ≡ 0) × (borrow f ≡ ok tt))
    ⊎ ((e : PoisonError (Unit {0})) × (borrow f ≡ err e)
        × (is_panic e ≡ has_bit n panic_poison)
        × (is_cancel e ≡ has_bit n cancel_poison)
        × ((is_panic e || is_cancel e) ≡ true))

borrow_bits : (n : ℕ) → n < 4 → Borrowed n
unfolding borrow is_panic is_cancel
borrow_bits zero h = inl (refl, refl)
borrow_bits (suc zero) h = inr (_, refl, refl, refl, refl)
borrow_bits (suc (suc zero)) h = inr (_, refl, refl, refl, refl)
borrow_bits (suc (suc (suc zero))) h = inr (_, refl, refl, refl, refl)
borrow_bits (suc (suc (suc (suc n)))) h = absurd (omega arith)

-- `borrow` succeeds exactly on a clean flag. Otherwise its error names the causes that the byte
-- holds, and at least one of them.
pub borrow_lem :
    (f : Flag)
    → IsFlag f
    → ((f.failed ≡ 0) × (borrow f ≡ ok tt))
      ⊎ ((e : PoisonError (Unit {0})) × (borrow f ≡ err e)
          × (is_panic e ≡ has_bit f.failed panic_poison)
          × (is_cancel e ≡ has_bit f.failed cancel_poison)
          × ((is_panic e || is_cancel e) ≡ true))
borrow_lem f h = borrow_bits f.failed h

done_clean_bits :
    (n : ℕ) (before now cancel : Bool)
    → n < 4
    → (done (record { failed = n }) (record { panicking = before }) now cancel).failed ≡ 0
    → (n ≡ 0) × ((not before && now) ≡ false) × (cancel ≡ false)
unfolding done
done_clean_bits zero before now cancel h clean = ground arith
done_clean_bits (suc zero) before now cancel h clean = ground arith
done_clean_bits (suc (suc zero)) before now cancel h clean = ground arith
done_clean_bits (suc (suc (suc zero))) before now cancel h clean = ground arith
done_clean_bits (suc (suc (suc (suc n)))) before now cancel h clean = absurd (omega arith)

-- A flag that `done` leaves clean was clean, and `done` had nothing to report.
pub done-clean :
    (f : Flag) (guard : Guard) (panicking cancel : Bool)
    → IsFlag f
    → (done f guard panicking cancel).failed ≡ 0
    → (f.failed ≡ 0) × ((not guard.panicking && panicking) ≡ false) × (cancel ≡ false)
done-clean f guard panicking cancel h clean =
    done_clean_bits f.failed guard.panicking panicking cancel h clean

text_length : ℕ → ℕ
text_length n = if n == 0 then 14 else if n == 1 then 19 else if n == 2 then 32 else 39

count-debug_flags : (n : ℕ) → n < 4 → count (debug_flags n) ≡ text_length n
unfolding debug_flags text_length
count-debug_flags zero h = refl
count-debug_flags (suc zero) h = refl
count-debug_flags (suc (suc zero)) h = refl
count-debug_flags (suc (suc (suc zero))) h = refl
count-debug_flags (suc (suc (suc (suc n)))) h = absurd (omega arith)

text_length-injective : (n m : ℕ) → n < 4 → m < 4 → text_length n ≡ text_length m → n ≡ m
unfolding text_length
text_length-injective n m hn hm e = ground arith

-- What `Debug` prints tells the four states of a flag apart.
pub debug_flag-injective :
    (f g : Flag) → IsFlag f → IsFlag g → debug_flag f ≡ debug_flag g → f.failed ≡ g.failed
unfolding debug_flag debug_flags get_flags
debug_flag-injective f g hf hg e =
    text_length-injective f.failed g.failed hf hg
      (sym (count-debug_flags f.failed hf) ∙ ap count e ∙ count-debug_flags g.failed hg)
