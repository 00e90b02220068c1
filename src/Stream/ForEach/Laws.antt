-- ===== src/Stream/ForEach/Laws.antt =====
-- The vocabulary of the theorems on `ForEachConcurrentThenTry`: what is left to do, and what an
-- iteration of its loop keeps.
use cancel_safe_futures.Base.{
  Outcome, returned, unwound, ℕ, ◌+◌, ◌*◌, ◌≤◌, ◌≡◌, Bool, false, if◌then◌else◌, List, [], ◌∷◌,
  ◌++◌, length, Option, none, some, Result,
}
use cancel_safe_futures.Stream.Defs.{TryStream, IsFinite, oks}
use cancel_safe_futures.Stream.ForEach.Defs.{FuturesUnordered, ForEachConcurrentThenTry}

-- The closure remembers the elements that it was called with, in order, also those at which it
-- panics.
pub record Logged {A Fut Fn : Type 0} (call : Fn → A → Outcome Fut × Fn) : Type 0 where
  pub calls : Fn → List A
  pub calls-call : (f : Fn) (a : A) → calls (call f a).1 ≡ calls f ++ a ∷ []

-- At most `limit` futures run.
abbrev pub Within : Option ℕ → ℕ → Type 0
Within none n = Unit
Within (some l) n = n ≤ l

-- An error that has been recorded is not replaced.
abbrev pub Keeps : {E : Type 0} → Option E → Option E → Type 0
Keeps none found = Unit
Keeps (some e) found = found ≡ some e

module _ {W A E Fut Fn : Type 0} (st : TryStream W A E)
    (set : FuturesUnordered W Fut (Result (Unit {0}) E)) (call : Fn → A → Outcome Fut × Fn)
    (fin : IsFinite st) (log : Logged call) where
  abbrev pub State : Type 0
  State = ForEachConcurrentThenTry st set call

  -- The items that the stream will still yield.
  abbrev pub remaining : Option st.Stream → List (Result A E)
  remaining none = []
  remaining (some x) = fin.rest x

  -- An item takes one iteration to start its future, and one to finish it.
  abbrev pub work : State → ℕ
  work s = length (remaining s.stream) * 2 + set.len s.futures

  -- The elements that the closure has got, and those that it will get.
  abbrev pub elements : State → List A
  elements s = log.calls s.f ++ oks (remaining s.stream)

  abbrev pub cost : Bool → ℕ
  cost made = if made then 1 else 0

  -- What every part of an iteration keeps: the limit, the elements, an error found; and if it
  -- reports progress, there is less to do.
  pub record Kept (made : Bool) (s s' : State) : Type 0 where
    pub limit : s'.limit ≡ s.limit
    pub less : work s' + cost made ≤ work s
    pub same : elements s' ≡ elements s
    pub error : Keeps s.first_error s'.first_error

-- Whether there was progress; a panic is none.
abbrev pub made_progress : Outcome Bool → Bool
made_progress (returned made) = made
made_progress unwound = false
