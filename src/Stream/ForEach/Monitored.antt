-- ===== src/Stream/ForEach/Monitored.antt =====
-- A stream and a set of futures whose world remembers the errors, and whether the task will be
-- woken, and polls of `ForEachConcurrentThenTry` on them.
use cancel_safe_futures.Base.{
  Outcome, returned, ℕ, zero, suc, ◌≡◌, refl, Bool, true, false, List, [], ◌∷◌, ◌++◌, append-nil,
  sym, length, Option, none, some, Result, ok, err, Poll, pending, ready, arith,
}
use cancel_safe_futures.Stream.Defs.{TryStream, Follows, IsFinite}
use cancel_safe_futures.Stream.Samples.{Script, Nothing, items, note, note-Logged}
use cancel_safe_futures.Stream.ForEach.Defs.{
  FuturesUnordered, Drained, ForEachConcurrentThenTry, new, poll,
}
use cancel_safe_futures.Stream.ForEach.Rule.{Gives}
use cancel_safe_futures.Stream.ForEach.Wake.{Arranges, Wakes}
use cancel_safe_futures.Stream.ForEach.First.{ErrorLog, errors_in, Found, Returns, poll-Returns}

pub record Seen : Type 0 where
  pub woken : Bool
  pub errors : List ℕ

-- An answer without an error leaves the log, an error is added to it.
abbrev log_item : {A : Type 0} → Result A ℕ → Seen → Seen
log_item (ok a) w = w
log_item (err e) w = record w { errors = w.errors ++ e ∷ [] }

abbrev pub poll_script : Script → Seen → Outcome (Poll (Option (Result ℕ ℕ))) × Script × Seen
poll_script [] w = (returned (ready none), [], w)
poll_script (none ∷ s) w = (returned pending, s, record w { woken = true })
poll_script (some x ∷ s) w = (returned (ready (some x)), s, log_item x w)

abbrev pub watched : TryStream Seen ℕ ℕ
watched = record { Stream = Script; try_poll_next = poll_script }

pub script-Follows : (s : Script) (w : Seen) → Follows watched items (items s) (poll_script s w)
script-Follows [] w = (refl, refl)
script-Follows (none ∷ s) w = refl
script-Follows (some x ∷ s) w = refl

abbrev pub watched-IsFinite : IsFinite watched
watched-IsFinite = record { rest = items; follows = script-Follows }

-- A future that is ready at once: 0 succeeds, any other number fails with itself.
abbrev outcome : ℕ → Result Nothing ℕ
outcome zero = ok tt
outcome (suc n) = err (suc n)

abbrev pub poll_queue : List ℕ → Seen → Outcome (Poll (Option (Result Nothing ℕ))) × List ℕ × Seen
poll_queue [] w = (returned (ready none), [], w)
poll_queue (f ∷ q) w = (returned (ready (some (outcome f))), q, log_item (outcome f) w)

pub queue-Drained : (q : List ℕ) (w : Seen) → Drained length (length q) (poll_queue q w)
queue-Drained [] w = (refl, refl)
queue-Drained (f ∷ q) w = refl

abbrev pub set : FuturesUnordered Seen ℕ (Result Nothing ℕ)
set = record {
  Queue = List ℕ;
  empty = [];
  push = ◌∷◌;
  len = length;
  poll_next = poll_queue;
  len-empty = refl;
  len-push = λ f q. refl;
  poll_next_law = queue-Drained;
}

log_item_lem :
    {A : Type 0} (x : Result A ℕ) (w : Seen)
    → (log_item x w).errors ≡ w.errors ++ errors_in (returned (ready (some x)))
log_item_lem (ok a) w = sym (append-nil w.errors)
log_item_lem (err e) w = refl

log_item_woken :
    {A : Type 0} (x : Result A ℕ) (w : Seen) → w.woken ≡ true → (log_item x w).woken ≡ true
log_item_woken (ok a) w h = h
log_item_woken (err e) w h = h

pub script_errors :
    (s : Script) (w : Seen)
    → let (r, s', w') = poll_script s w in w'.errors ≡ w.errors ++ errors_in r
script_errors [] w = sym (append-nil w.errors)
script_errors (none ∷ s) w = sym (append-nil w.errors)
script_errors (some x ∷ s) w = log_item_lem x w

pub queue_errors :
    (q : List ℕ) (w : Seen)
    → let (r, q', w') = poll_queue q w in w'.errors ≡ w.errors ++ errors_in r
queue_errors [] w = sym (append-nil w.errors)
queue_errors (f ∷ q) w = log_item_lem (outcome f) w

pub script_wakes :
    (s : Script) (w : Seen) → Arranges (λ (v : Seen). v.woken) w.woken (poll_script s w)
script_wakes [] w = λ h. h
script_wakes (none ∷ s) w = refl
script_wakes (some x ∷ s) w = log_item_woken x w

pub queue_wakes :
    (q : List ℕ) (w : Seen) → Arranges (λ (v : Seen). v.woken) w.woken (poll_queue q w)
queue_wakes [] w = λ h. h
queue_wakes (f ∷ q) w = log_item_woken (outcome f) w

abbrev pub errors_logged : ErrorLog watched set note
errors_logged = record {
  errors = λ w. w.errors;
  stream_law = script_errors;
  set_law = queue_errors;
}

abbrev pub wakes : Wakes watched set note watched-IsFinite note-Logged
wakes = record { will_wake = λ w. w.woken; stream_law = script_wakes; set_law = queue_wakes }

abbrev pub asleep : Seen
asleep = record { woken = false; errors = [] }

-- The stream fails with 5 after the second element, whose future fails with 7 before that.
abbrev failing : ForEachConcurrentThenTry watched set note
unfolding new
failing =
    new watched set note (some (ok 0) ∷ some (ok 7) ∷ some (err 5) ∷ some (ok 3) ∷ []) (some 1) []

poll-Returns_example :
    Gives watched set note
      (Found watched set note errors_logged)
      (Returns watched set note errors_logged)
      (poll watched set note 20 failing asleep)
unfolding failing
poll-Returns_example =
    poll-Returns watched set note errors_logged watched-IsFinite note-Logged 20 failing asleep
      (omega arith) refl
