-- ===== src/Poison/Flag.antt =====
-- src/sync/poison.rs: `Flag` and `Guard`. The atomic byte is a number below 256; each access is one
-- step, and `thread::panicking()` is an argument wherever the code asks for it.
use cancel_safe_futures.Base.{ℕ, ◌&&◌, Bool, not, bit_or, ok, err, ltb, if◌then◌else◌}
use cancel_safe_futures.Poison.Error.{no_poison, panic_poison, cancel_poison, LockResult}

pub record Flag : Type 0 where
  pub failed : ℕ

pub record Guard : Type 0 where
  pub panicking : Bool

unfoldable pub new : Flag
new = record { failed = no_poison }

unfoldable pub get_flags : Flag → ℕ
get_flags f = f.failed

unfoldable pub borrow : Flag → LockResult (Unit {0})
unfolding get_flags
borrow f =
    let flags = get_flags f in
    if ltb no_poison flags then err (record { guard = tt; flags = flags }) else ok tt

unfoldable pub guard_assuming_no_poison : Bool → Guard
guard_assuming_no_poison panicking = record { panicking = panicking }

-- The bits that `done` adds, from its two tests.
unfoldable pub new_flags : Guard → Bool → Bool → ℕ
new_flags guard panicking cancel =
    let start : ℕ = 0 in
    let flags = if not guard.panicking && panicking then bit_or start panic_poison else start in
    if cancel then bit_or flags cancel_poison else flags

-- `fetch_or` of the new bits.
unfoldable pub done : Flag → Guard → Bool → Bool → Flag
unfolding new_flags
done f guard panicking cancel = record f {
  failed = bit_or f.failed (new_flags guard panicking cancel);
}
