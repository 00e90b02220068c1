-- ===== src/Stream/ForEach/Limit.antt =====
-- The limit of `ForEachConcurrentThenTry`: a number that is not 0, if there is one.
use cancel_safe_futures.Base.{ℕ, ◌<◌, ◌≡◌, ◌≢◌, refl, true, false, Option, none, some, arith}
use cancel_safe_futures.Stream.ForEach.Defs.{has_room, non_zero}

-- As `new` leaves it.
abbrev pub IsLimit : Option ℕ → Type 0
IsLimit none = Unit
IsLimit (some l) = 0 < l

pub non_zero-IsLimit : (limit : Option ℕ) → IsLimit (non_zero limit)
non_zero-IsLimit none = tt
non_zero-IsLimit (some l) = ground arith

-- Without room the set is not empty.
pub full_set : (limit : Option ℕ) (n : ℕ) → IsLimit limit → has_room limit n ≡ false → n ≢ 0
full_set none n l h = cc
full_set (some k) n l h = λ e. ground arith

-- An empty set leaves room.
pub empty-has_room : (limit : Option ℕ) (n : ℕ) → IsLimit limit → n ≡ 0 → has_room limit n ≡ true
empty-has_room none n l e = refl
empty-has_room (some k) n l e = ground arith
