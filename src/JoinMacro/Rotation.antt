-- ===== src/JoinMacro/Rotation.antt =====
-- The rotation in src/macros/join_then_try.rs: which branch a poll starts with.
use cancel_safe_futures.Base.{
  ℕ, zero, suc, ◌+◌, ◌-◌, ◌<◌, ◌≡◌, ◌∙◌, ap, ltb, if◌then◌else◌, Bool-cases, inl, inr, arith,
}
use cancel_safe_futures.JoinMacro.Defs.{next_skip}

-- The value of `skip_next_time` after `k` polls.
unfoldable pub skip_after : ℕ → ℕ → ℕ → ℕ
skip_after count zero skip = skip
skip_after count (suc k) skip = skip_after count k (next_skip count skip)

next_skip-inside : (count skip : ℕ) → suc skip < count → next_skip count skip ≡ suc skip
next_skip-inside count skip h = ground arith

next_skip-last : (count skip : ℕ) → suc skip ≡ count → next_skip count skip ≡ 0
next_skip-last count skip h = ground arith

-- Before the last branch, each poll starts one branch further.
skip_after-inside : (count k skip : ℕ) → skip + k < count → skip_after count k skip ≡ skip + k
unfolding skip_after
skip_after-inside count zero skip h = omega arith
skip_after-inside count (suc k) skip h =
    ap (skip_after count k) (next_skip-inside count skip (omega arith))
    ∙ skip_after-inside count k (suc skip) (omega arith)
    ∙ omega arith

-- With `d` branches after the one at hand, the round starts again after `suc d` polls.
skip_after-last :
    (count d k skip i : ℕ)
    → skip + suc d ≡ count
    → k ≡ suc d + i
    → i < count
    → skip_after count k skip ≡ i
unfolding skip_after
skip_after-last count d zero skip i e f h = absurd (omega arith)
skip_after-last count zero (suc k) skip i e f h =
    ap (skip_after count k) (next_skip-last count skip (omega arith))
    ∙ skip_after-inside count k 0 (omega arith)
    ∙ omega arith
skip_after-last count (suc d) (suc k) skip i e f h =
    ap (skip_after count k) (next_skip-inside count skip (omega arith))
    ∙ skip_after-last count d k (suc skip) i (omega arith) (omega arith) h

-- The number of polls until branch `i` comes first.
abbrev pub turn : ℕ → ℕ → ℕ → ℕ
turn count skip i = if ltb i skip then (count - skip) + i else i - skip

-- From every value of `skip_next_time`, each branch is the first one to be polled within `count`
-- polls.
pub skip_after-turn :
    (count skip i : ℕ)
    → skip < count
    → i < count
    → (turn count skip i < count) × (skip_after count (turn count skip i) skip ≡ i)
skip_after-turn count skip i h hi = elim (Bool-cases (ltb i skip)) [
  | inl before ↦ (
    ground arith,
    skip_after-last count (count - suc skip) (turn count skip i) skip i (omega arith) (ground arith)
        hi,
  )
  | inr after ↦
      (ground arith, skip_after-inside count (turn count skip i) skip (ground arith) ∙ ground arith)
]

pub next_skip_bound : (count skip : ℕ) → skip < count → next_skip count skip < count
next_skip_bound count skip h = ground arith
