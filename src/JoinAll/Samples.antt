-- ===== src/JoinAll/Samples.antt =====
-- A queue of timers that meets what the big kind of a join relies on.
use cancel_safe_futures.Base.{
  ◌<◌, Outcome, returned, unwound, ℕ, ◌+◌, ◌≡◌, refl, Bool, true, false, List, [], ◌∷◌, map, Option,
  none, some, Result, Poll, pending, ready, arith,
}
use cancel_safe_futures.Stream.Defs.{TryStream, Follows, IsCalm, Pauses}
use cancel_safe_futures.Future.Waking.{IfPending}
use cancel_safe_futures.Future.Woken.{Woken}
use cancel_safe_futures.Future.MaybeDone.{future, done, gone, advance}
use cancel_safe_futures.Future.Samples.{Timer, Slot, poll_timer, has_polls}
use cancel_safe_futures.Future.Promise.{Settles, promised}
use cancel_safe_futures.JoinAll.Kinds.{FuturesOrdered}

-- A queue that polls the first future that has not finished.
abbrev pub serve :
    Bool × Slot × ℕ → List Slot → Outcome (Poll (Option (Result ℕ ℕ))) × List Slot × ℕ
serve (true, s, w) ss = (unwound, s ∷ ss, w)
serve (false, done o, w) ss = (returned (ready (some o)), ss, w)
serve (false, s, w) ss = (returned pending, s ∷ ss, w)

abbrev pub serve_next : List Slot → ℕ → Outcome (Poll (Option (Result ℕ ℕ))) × List Slot × ℕ
serve_next [] w = (returned (ready none), [], w)
serve_next (gone ∷ ss) w = serve_next ss w
serve_next (done o ∷ ss) w = serve (false, done o, w) ss
serve_next (future t ∷ ss) w = serve (advance poll_timer (future t) w) ss

abbrev pub in_order : TryStream ℕ ℕ ℕ
in_order = record { Stream = List Slot; try_poll_next = serve_next }

abbrev pub waiting : List Timer → List Slot
waiting [] = []
waiting (t ∷ ts) = future t ∷ waiting ts

pub promised-waiting :
    (out : Timer → Result ℕ ℕ) (ts : List Timer) → promised out (waiting ts) ≡ map out ts
promised-waiting out [] = refl
promised-waiting out (t ∷ ts) = ground (arith, promised-waiting out ts)

pub serve_next_law :
    (out : Timer → Result ℕ ℕ)
    → ((t : Timer) (w : ℕ) → Settles out t (poll_timer t w))
    → (q : List Slot) (w : ℕ) → Follows in_order (promised out) (promised out q) (serve_next q w)
serve_next_law out settles [] w = (refl, refl)
serve_next_law out settles (gone ∷ ss) w = serve_next_law out settles ss w
serve_next_law out settles (done o ∷ ss) w = refl
serve_next_law out settles (future t ∷ ss) w = ground (arith, settles t w)

pub serve_next-IsCalm :
    (out : Timer → Result ℕ ℕ)
    → ((t : Timer) (w : ℕ) → Settles out t (poll_timer t w))
    → (q : List Slot) (w : ℕ) → IsCalm (serve_next q w)
serve_next-IsCalm out settles [] w = tt
serve_next-IsCalm out settles (gone ∷ ss) w = serve_next-IsCalm out settles ss w
serve_next-IsCalm out settles (done o ∷ ss) w = tt
serve_next-IsCalm out settles (future t ∷ ss) w = ground (arith, settles t w)

abbrev pub ordered : FuturesOrdered ℕ Timer ℕ ℕ poll_timer
ordered = record {
  queue = in_order;
  collect = waiting;
  rest = promised;
  rest-collect = promised-waiting;
  follows = serve_next_law;
  calm = serve_next-IsCalm;
}

-- The polls that the queue will be pending.
abbrev pub waits : List Slot → ℕ
waits [] = 0
waits (gone ∷ ss) = waits ss
waits (done o ∷ ss) = waits ss
waits (future t ∷ ss) = t.polls_left + waits ss

pub serve_next-Pauses : (q : List Slot) (w : ℕ) → Pauses waits (waits q) (serve_next q w)
serve_next-Pauses [] w = omega arith
serve_next-Pauses (gone ∷ ss) w = serve_next-Pauses ss w
serve_next-Pauses (done o ∷ ss) w = omega arith
serve_next-Pauses (future t ∷ ss) w = ground arith

-- The queue is armed once a future in it has been polled.
abbrev pub AnyServed : List Slot → ℕ → Type 0
AnyServed q w = 0 < w

pub serve_next-IfPending : (q : List Slot) (w : ℕ) → IfPending AnyServed (serve_next q w)
serve_next-IfPending [] w = tt
serve_next-IfPending (gone ∷ ss) w = serve_next-IfPending ss w
serve_next-IfPending (done o ∷ ss) w = tt
serve_next-IfPending (future t ∷ ss) w = ground arith

pub serve_next-Woken : (q : List Slot) (w : ℕ) → IfPending (Woken has_polls) (serve_next q w)
serve_next-Woken [] w = tt
serve_next-Woken (gone ∷ ss) w = serve_next-Woken ss w
serve_next-Woken (done o ∷ ss) w = tt
serve_next-Woken (future t ∷ ss) w = ground arith
