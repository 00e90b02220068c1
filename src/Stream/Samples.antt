-- ===== src/Stream/Samples.antt =====
-- A stream and a set of futures that meet what the adapters rely on, for the runs of their
-- examples.
use cancel_safe_futures.Base.{
  Outcome, returned, ℕ, zero, suc, refl, Bool, true, List, [], ◌∷◌, ◌++◌, length, Option, none,
  some, Result, ok, err, Poll, pending, ready, arith,
}
use cancel_safe_futures.Future.Waking.{IfPending}
use cancel_safe_futures.Future.Woken.{Woken}
use cancel_safe_futures.Stream.Defs.{TryStream, Follows, IsFinite, Pauses}
use cancel_safe_futures.Stream.ForEach.Defs.{FuturesUnordered, Drained}
use cancel_safe_futures.Stream.ForEach.Laws.{Logged}

-- What the stream does at its next polls; `none` is a poll that is pending.
abbrev pub Script : Type 0
Script = List (Option (Result ℕ ℕ))

abbrev pub Nothing : Type 0
Nothing = Unit {0}

abbrev poll_script : Script → Nothing → Outcome (Poll (Option (Result ℕ ℕ))) × Script × Nothing
poll_script [] w = (returned (ready none), [], w)
poll_script (none ∷ s) w = (returned pending, s, w)
poll_script (some x ∷ s) w = (returned (ready (some x)), s, w)

abbrev pub scripted : TryStream Nothing ℕ ℕ
scripted = record { Stream = Script; try_poll_next = poll_script }

abbrev pub items : Script → List (Result ℕ ℕ)
items [] = []
items (none ∷ s) = items s
items (some x ∷ s) = x ∷ items s

pub items_follow : (s : Script) (w : Nothing) → Follows scripted items (items s) (poll_script s w)
items_follow [] w = (refl, refl)
items_follow (none ∷ s) w = refl
items_follow (some x ∷ s) w = refl

abbrev pub scripted-IsFinite : IsFinite scripted
scripted-IsFinite = record { rest = items; follows = items_follow }

-- The polls of the script that are pending.
abbrev pub waits : Script → ℕ
waits [] = 0
waits (none ∷ s) = suc (waits s)
waits (some x ∷ s) = waits s

-- The same stream in a world that says whether the task will be woken.
abbrev poll_flagged : Script → Bool → Outcome (Poll (Option (Result ℕ ℕ))) × Script × Bool
poll_flagged [] w = (returned (ready none), [], w)
poll_flagged (none ∷ s) w = (returned pending, s, true)
poll_flagged (some x ∷ s) w = (returned (ready (some x)), s, w)

abbrev pub flagged : TryStream Bool ℕ ℕ
flagged = record { Stream = Script; try_poll_next = poll_flagged }

pub flagged_follow : (s : Script) (w : Bool) → Follows flagged items (items s) (poll_flagged s w)
flagged_follow [] w = (refl, refl)
flagged_follow (none ∷ s) w = refl
flagged_follow (some x ∷ s) w = refl

abbrev pub flagged-IsFinite : IsFinite flagged
flagged-IsFinite = record { rest = items; follows = flagged_follow }

pub flagged_pause : (s : Script) (w : Bool) → Pauses waits (waits s) (poll_flagged s w)
flagged_pause [] w = omega arith
flagged_pause (none ∷ s) w = omega arith
flagged_pause (some x ∷ s) w = omega arith

pub flagged-IfPending :
    (s : Script) (w : Bool) → IfPending (Woken (λ (b : Bool). b)) (poll_flagged s w)
flagged-IfPending [] w = tt
flagged-IfPending (none ∷ s) w = refl
flagged-IfPending (some x ∷ s) w = tt

-- A future that is ready at once: 0 succeeds, any other number fails with itself.
abbrev outcome : ℕ → Result Nothing ℕ
outcome zero = ok tt
outcome (suc n) = err (suc n)

abbrev poll_queue : List ℕ → Nothing → Outcome (Poll (Option (Result Nothing ℕ))) × List ℕ × Nothing
poll_queue [] w = (returned (ready none), [], w)
poll_queue (f ∷ q) w = (returned (ready (some (outcome f))), q, w)

pub poll_queue_law : (q : List ℕ) (w : Nothing) → Drained length (length q) (poll_queue q w)
poll_queue_law [] w = (refl, refl)
poll_queue_law (f ∷ q) w = refl

abbrev pub queue : FuturesUnordered Nothing ℕ (Result Nothing ℕ)
queue = record {
  Queue = List ℕ;
  empty = [];
  push = ◌∷◌;
  len = length;
  poll_next = poll_queue;
  len-empty = refl;
  len-push = λ f q. refl;
  poll_next_law = poll_queue_law;
}

-- The closure: an element is its own future, and the elements are noted down.
abbrev pub note : List ℕ → ℕ → Outcome ℕ × List ℕ
note seen a = (returned a, seen ++ a ∷ [])

abbrev pub note-Logged : Logged note
note-Logged = record { calls = λ seen. seen; calls-call = λ f a. refl }
