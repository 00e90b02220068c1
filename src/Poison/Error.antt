-- ===== src/Poison/Error.antt =====
-- src/sync/poison.rs: `PoisonError`, `TryLockError`, the result types and `map_result`. The
-- references that `get_ref` and `get_mut` hand out are reads and writes of the field `guard`.
use cancel_safe_futures.Base.{ℕ, Bool, not, ◌==◌, bit_and, Result, ok, err}

-- Bits of the flag byte: `1 << 0` and `1 << 1`.
abbrev pub no_poison : ℕ
no_poison = 0

abbrev pub panic_poison : ℕ
panic_poison = 1

abbrev pub cancel_poison : ℕ
cancel_poison = 2

-- `flags & mask != 0`
abbrev pub has_bit : ℕ → ℕ → Bool
has_bit flags mask = not (bit_and flags mask == 0)

pub record PoisonError {ℓ} (T : Type ℓ) : Type ℓ where
  pub guard : T
  pub flags : ℕ

pub data TryLockError {ℓ} (T : Type ℓ) : Type ℓ where
  poisoned : PoisonError T → TryLockError T
  would_block : TryLockError T

abbrev pub LockResult {ℓ} : Type ℓ → Type ℓ
LockResult G = Result G (PoisonError G)

abbrev pub TryLockResult {ℓ} : Type ℓ → Type ℓ
TryLockResult G = Result G (TryLockError G)

module _ {ℓ} {T : Type ℓ} where
  unfoldable pub is_panic : PoisonError T → Bool
  is_panic e = has_bit e.flags panic_poison

  unfoldable pub is_cancel : PoisonError T → Bool
  is_cancel e = has_bit e.flags cancel_poison

  unfoldable pub into_inner : PoisonError T → T
  into_inner e = e.guard

  unfoldable pub get_ref : PoisonError T → T
  get_ref e = e.guard

  -- The error after a write through the reference that `get_mut` returns.
  unfoldable pub get_mut : PoisonError T → T → PoisonError T
  get_mut e g = record e { guard = g }

unfoldable pub map_result {ℓ κ} : {T : Type ℓ} {U : Type κ} → LockResult T → (T → U) → LockResult U
unfolding into_inner
map_result (ok t) f = ok (f t)
map_result (err e) f =
    let flags = e.flags in err (record { guard = f (into_inner e); flags = flags })
