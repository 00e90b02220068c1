-- ===== src/Future/Samples.antt =====
-- Futures that are ready after a number of polls, and cells for them, for the runs of the examples.
-- The world counts the polls.
use cancel_safe_futures.Base.{
  ◌<◌, ℕ, zero, suc, refl, Bool, true, false, Option, none, some, Result, Poll, pending, ready,
  Outcome, returned, unwound, arith,
}
use cancel_safe_futures.Future.Waking.{Arms}
use cancel_safe_futures.Future.Woken.{Woken}
use cancel_safe_futures.Future.Promise.{Settles, Finishes}
use cancel_safe_futures.Future.MaybeDone.{
  Stage, future, done, gone, advance, polled, Advances, Takes, MaybeDone,
}

-- Cells over any futures, with nothing hidden.
module _ {W F Out : Type 0} (poll_future : F → W → Outcome (Poll Out) × F × W) where
  abbrev pub poll_slot : Stage F Out → W → Outcome (Poll (Unit {0})) × Stage F Out × W
  poll_slot s w = let (panics, s', w1) = advance poll_future s w in (polled panics s', s', w1)

  pub poll_slot_law :
      (s : Stage F Out) (w : W)
      → Advances {Cell = Stage F Out} (λ c. c) poll_future s w (poll_slot s w)
  poll_slot_law s w = (refl, refl, refl)

  abbrev pub take_slot : Stage F Out → Option Out × Stage F Out
  take_slot (future t) = (none, future t)
  take_slot (done r) = (some r, gone)
  take_slot gone = (none, gone)

  pub take_slot_law : (s : Stage F Out) → Takes {Cell = Stage F Out} (λ c. c) s (take_slot s)
  take_slot_law (future t) = (refl, refl)
  take_slot_law (done r) = (refl, refl)
  take_slot_law gone = (refl, refl)

  abbrev pub slots_of : MaybeDone W F Out poll_future
  slots_of = record {
    Cell = Stage F Out;
    new = future;
    poll = poll_slot;
    take_output = take_slot;
    view = λ c. c;
    view-new = λ f. refl;
    poll_law = poll_slot_law;
    take_output_law = take_slot_law;
  }

pub record Timer : Type 0 where
  pub polls_left : ℕ
  pub output : Result ℕ ℕ

abbrev run_timer : ℕ → Result ℕ ℕ → ℕ → Outcome (Poll (Result ℕ ℕ)) × Timer × ℕ
run_timer zero r w = (returned (ready r), record { polls_left = 0; output = r }, suc w)
run_timer (suc n) r w = (returned pending, record { polls_left = n; output = r }, suc w)

abbrev pub poll_timer : Timer → ℕ → Outcome (Poll (Result ℕ ℕ)) × Timer × ℕ
poll_timer t w = run_timer t.polls_left t.output w

abbrev pub Slot : Type 0
Slot = Stage Timer (Result ℕ ℕ)

abbrev pub slots : MaybeDone ℕ Timer (Result ℕ ℕ) poll_timer
slots = slots_of poll_timer

-- Timers that succeed and fail after some polls.
abbrev pub after_polls : ℕ → Result ℕ ℕ → Timer
after_polls n r = record { polls_left = n; output = r }

abbrev pub output_of : Timer → Result ℕ ℕ
output_of t = t.output

pub output_of_settles : (t : Timer) (w : ℕ) → Settles output_of t (poll_timer t w)
output_of_settles t w = ground arith

abbrev pub left_of : Timer → ℕ
left_of t = t.polls_left

pub left_of-Finishes : (t : Timer) (w : ℕ) → Finishes left_of t (poll_timer t w)
left_of-Finishes t w = ground arith

-- A timer, or a future that panics.
abbrev lift_timer :
    Outcome (Poll (Result ℕ ℕ)) × Timer × ℕ → Outcome (Poll (Result ℕ ℕ)) × Option Timer × ℕ
lift_timer (out, t, w) = (out, some t, w)

abbrev pub poll_fragile : Option Timer → ℕ → Outcome (Poll (Result ℕ ℕ)) × Option Timer × ℕ
poll_fragile none w = (unwound, none, suc w)
poll_fragile (some t) w = lift_timer (poll_timer t w)

abbrev pub fragile_slots : MaybeDone ℕ (Option Timer) (Result ℕ ℕ) poll_fragile
fragile_slots = slots_of poll_fragile

-- A timer that has been polled counts as armed: the world counts the polls.
abbrev pub AnyPoll : Timer → ℕ → Type 0
AnyPoll t w = 0 < w

run_timer-Arms : (n : ℕ) (r : Result ℕ ℕ) (w : ℕ) → Arms AnyPoll w (run_timer n r w)
run_timer-Arms zero r w = λ g a. omega arith
run_timer-Arms (suc n) r w = (omega arith, λ g a. omega arith)

pub poll_timer-Arms : (t : Timer) (w : ℕ) → Arms AnyPoll w (poll_timer t w)
poll_timer-Arms t w = run_timer-Arms t.polls_left t.output w

-- A task is woken if a timer has been polled since the world was set to 0.
abbrev pub has_polls : ℕ → Bool
has_polls zero = false
has_polls (suc n) = true

run_timer-Woken : (n : ℕ) (r : Result ℕ ℕ) (w : ℕ) → Arms (Woken has_polls) w (run_timer n r w)
run_timer-Woken zero r w = λ g a. refl
run_timer-Woken (suc n) r w = (refl, λ g a. refl)

pub poll_timer-Woken : (t : Timer) (w : ℕ) → Arms (Woken has_polls) w (poll_timer t w)
poll_timer-Woken t w = run_timer-Woken t.polls_left t.output w
