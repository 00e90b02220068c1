-- ===== src/RobustMutex/Samples.antt =====
-- A mutex cell that meets what `RobustMutex` relies on, an action that waits once, one that panics
-- after it has broken the invariant, and one that returns.
use cancel_safe_futures.Base.{
  ℕ, refl, Bool, true, false, Option, none, some, Poll, pending, ready, Outcome, returned, unwound,
  if◌then◌else◌, arith,
}
use cancel_safe_futures.RobustMutex.Tokio.{TokioMutex, Attempt, polled, blocked}
use cancel_safe_futures.RobustMutex.Perform.{ActionFuture}

pub record Cell : Type 0 where
  pub content : ℕ
  pub taken : Bool

abbrev pub attempt : Cell → Option (Unit {0}) × Cell
attempt c = if c.taken then (none, c) else (some tt, record c { taken = true })

abbrev pub attempt_poll : Cell → Poll (Unit {0}) × Cell
attempt_poll c = if c.taken then (pending, c) else (ready tt, record c { taken = true })

abbrev pub attempt_block : Cell → Poll (Outcome (Unit {0})) × Cell
attempt_block c = if c.taken then (pending, c) else (ready (returned tt), record c { taken = true })

abbrev pub taken : Cell → Bool
taken c = c.taken

abbrev pub content : Cell → ℕ
content c = c.content

pub attempt_law : (c : Cell) → Attempt taken content c (attempt c).0 (attempt c).1
attempt_law c = ground arith

pub attempt_poll_law :
    (c : Cell) → Attempt taken content c (polled (attempt_poll c).0) (attempt_poll c).1
attempt_poll_law c = ground arith

pub attempt_block_law :
    (c : Cell) → Attempt taken content c (blocked (attempt_block c).0) (attempt_block c).1
attempt_block_law c = ground arith

abbrev pub cell : TokioMutex ℕ
cell = record {
  Mutex = Cell;
  Guard = Unit {0};
  Lock = Unit {0};
  new = λ t. record { content = t; taken = false };
  lock = λ _. tt;
  poll_lock = λ l c. ((attempt_poll c).0, l, (attempt_poll c).1);
  drop_lock = λ _ c. c;
  blocking_lock = attempt_block;
  try_lock = attempt;
  value = content;
  write = λ _ t c. record c { content = t };
  write_mut = λ t c. record c { content = t };
  unlock = λ _ c. record c { taken = false };
  into_inner = content;
  held = taken;
  value-new = λ _. refl;
  held-new = λ _. refl;
  poll_lock_law = λ _ c. attempt_poll_law c;
  drop_lock_law = λ _ c. (refl, refl);
  blocking_lock_law = attempt_block_law;
  try_lock_law = attempt_law;
  write_law = λ _ t c. (refl, refl);
  write_mut_law = λ t c. (refl, refl);
  unlock_law = λ _ c. (refl, refl);
  into_inner_law = λ c. refl;
}

-- A future that breaks the invariant, waits once, and restores it.
abbrev pub detour_poll : Bool → ℕ → Outcome (Poll ℕ) × Bool × ℕ
detour_poll false t = (returned pending, true, 99)
detour_poll true t = (returned (ready t), true, 5)

abbrev pub detour : ActionFuture ℕ ℕ
detour = record { Fut = Bool; poll = detour_poll; drop = λ _ t. t }

abbrev pub bad : ℕ → Outcome ℕ × ℕ
bad t = (unwound, 77)

abbrev pub good : ℕ → Outcome ℕ × ℕ
good t = (returned t, 3)
