-- ===== src/JoinMacro/Fair.antt =====
-- src/macros/join_then_try.rs: which branch comes first in a sequence of polls.
use mathlib.Core.Path.{subst, subst₂}
use cancel_safe_futures.Base.{
  ℕ, zero, suc, ◌<◌, ◌≡◌, ◌∙◌, refl, sym, ap, Bool, true, false, List, ◌∷◌, ◌++◌, length, Option,
  none, some, Result, Poll, Outcome, returned, unwound, arith,
}
use cancel_safe_futures.Future.MaybeDone.{Stage, MaybeDone}
use cancel_safe_futures.Future.Round.{all_ready}
use cancel_safe_futures.JoinMacro.Defs.{JoinThenTry, next_skip, Answer, poll}
use cancel_safe_futures.JoinMacro.Loop.{poll_rotated}
use cancel_safe_futures.JoinMacro.Polling.{Joined, poll-Joined}
use cancel_safe_futures.JoinMacro.Rotation.{skip_after, turn, skip_after-turn, next_skip_bound}
use cancel_safe_futures.JoinMacro.Sizes.{length-views, length-poll_rotated}
use cancel_safe_futures.JoinMacro.Split.{cut}

module _ {W F A E : Type 0} {poll_future : F → W → Outcome (Poll (Result A E)) × F × W}
    (maybe : MaybeDone W F (Result A E) poll_future) where
  -- The future after a poll, if that was pending.
  abbrev go_round :
      (JoinThenTry maybe → W → Option (JoinThenTry maybe × W))
      → Option (Answer maybe)
      → Option (JoinThenTry maybe × W)
  go_round again (some (returned Poll.pending, j, w)) = again j w
  go_round again _ = none

  -- The future after `k` polls, if all of them were pending; the world may change between them.
  unfoldable pub after_pending :
      (W → W) → ℕ → JoinThenTry maybe → W → Option (JoinThenTry maybe × W)
  after_pending between zero j w = some (j, w)
  after_pending between (suc k) j w =
      go_round (λ j' w'. after_pending between k j' (between w')) (poll maybe 2 j w)

  -- There are `count` branches, and the next poll skips `skip` of them.
  abbrev StartsAt : ℕ → ℕ → JoinThenTry maybe → Type 0
  StartsAt count skip j = (length j.futures ≡ count) × (j.skip_next_time ≡ skip)

  abbrev IfPending : ℕ → ℕ → Option (Answer maybe) → Type 0
  IfPending count skip (some (returned Poll.pending, j, w)) = StartsAt count skip j
  IfPending count skip _ = Unit

  abbrev IfAny : ℕ → ℕ → Option (JoinThenTry maybe × W) → Type 0
  IfAny count skip none = Unit
  IfAny count skip (some (j, w)) = StartsAt count skip j

  Joined-IfPending :
      (panics all : Bool) (ss : List (Stage F (Result A E))) (w : W) (count skip : ℕ)
      (a : Option (Answer maybe))
      → length ss ≡ count
      → Joined maybe panics all ss w skip a
      → IfPending count skip a
  Joined-IfPending panics all ss w count skip none l j = tt
  Joined-IfPending panics all ss w count skip (some (unwound, k, v)) l j = tt
  Joined-IfPending panics all ss w count skip (some (returned (Poll.ready r), k, v)) l j = tt
  Joined-IfPending true all ss w count skip (some (returned Poll.pending, k, v)) l j = cc (j.0)
  Joined-IfPending false true ss w count skip (some (returned Poll.pending, k, v)) l j = cc (j.0)
  Joined-IfPending false false ss w count skip (some (returned Poll.pending, k, v)) l j =
      (sym (length-views maybe k.futures) ∙ ap length j.1 ∙ l, j.3)

  poll_at :
      (front : List maybe.Cell) (b : maybe.Cell) (back : List maybe.Cell) (w : W)
      → let count = length (front ++ b ∷ back) in
        IfPending count
          (next_skip count (length front))
          (poll maybe 2 (record { futures = front ++ b ∷ back; skip_next_time = length front }) w)
  poll_at front b back w =
      let count = length (front ++ b ∷ back) in
      let (panics, ss, w1) = poll_rotated maybe front (b ∷ back) w in
      Joined-IfPending panics (all_ready ss) ss w1 count (next_skip count (length front)) _
        (length-poll_rotated maybe front (b ∷ back) w) (poll-Joined maybe 0 front b back w)

  poll-IfPending :
      (j : JoinThenTry maybe) (w : W)
      → j.skip_next_time < length j.futures
      → IfPending
          (length j.futures)
          (next_skip (length j.futures) j.skip_next_time)
          (poll maybe 2 j w)
  poll-IfPending j w h =
      let c = cut j.futures j.skip_next_time h in
      subst₂
        (λ cs k.
          IfPending (length cs) (next_skip (length cs) k)
            (poll maybe 2 (record { futures = cs; skip_next_time = k }) w))
        (sym c.whole) (sym c.before) (poll_at c.front c.at c.back w)

  go_round-IfAny :
      (again : JoinThenTry maybe → W → Option (JoinThenTry maybe × W)) (count skip last : ℕ)
      (a : Option (Answer maybe))
      → ((j : JoinThenTry maybe) (w : W) → StartsAt count skip j → IfAny count last (again j w))
      → IfPending count skip a
      → IfAny count last (go_round again a)
  go_round-IfAny again count skip last none ih h = tt
  go_round-IfAny again count skip last (some (unwound, j, w)) ih h = tt
  go_round-IfAny again count skip last (some (returned (Poll.ready r), j, w)) ih h = tt
  go_round-IfAny again count skip last (some (returned Poll.pending, j, w)) ih h = ih j w h

  after_pending-IfAny :
      (between : W → W) (k count skip : ℕ) (j : JoinThenTry maybe) (w : W)
      → skip < count
      → StartsAt count skip j
      → IfAny count (skip_after count k skip) (after_pending between k j w)
  unfolding after_pending skip_after
  after_pending-IfAny between zero count skip j w i h = h
  after_pending-IfAny between (suc k) count skip j w i h =
      go_round-IfAny (λ j' w'. after_pending between k j' (between w')) count (next_skip count skip)
        (skip_after count k (next_skip count skip)) (poll maybe 2 j w)
        (λ j' w' s.
          after_pending-IfAny between k count (next_skip count skip) j' (between w')
            (next_skip_bound count skip i) s)
        (subst₂ (λ c s. IfPending c (next_skip c s) (poll maybe 2 j w)) h.0 h.1
          (poll-IfPending j w (omega (arith, h))))

  -- The next poll begins at branch `i`: its answer is that of a round which, in the world that the
  -- poll finds, polls the branch after `i` others, then those behind it, and last the `i` in front.
  abbrev pub PollsFirst : ℕ → JoinThenTry maybe → W → Type 0
  PollsFirst i j w =
      (front : List maybe.Cell) × (b : maybe.Cell) × (back : List maybe.Cell) × (j.futures
        ≡ front ++ b ∷ back)
      × (i ≡ length front)
      × (let (panics, ss, w1) = poll_rotated maybe front (b ∷ back) w in
          Joined maybe panics (all_ready ss) ss w1 (next_skip (length j.futures) i)
            (poll maybe 2 j w))

  -- The branches are `count` still, and the next poll begins at branch `i`.
  abbrev pub FirstIfAny : ℕ → ℕ → Option (JoinThenTry maybe × W) → Type 0
  FirstIfAny count i none = Unit
  FirstIfAny count i (some (j, w)) = (length j.futures ≡ count) × PollsFirst i j w

  poll-PollsFirst :
      (j : JoinThenTry maybe) (w : W)
      → j.skip_next_time < length j.futures
      → PollsFirst j.skip_next_time j w
  poll-PollsFirst j w h =
      let c = cut j.futures j.skip_next_time h in
      let (panics, ss, w1) = poll_rotated maybe c.front (c.at ∷ c.back) w in
      (
        c.front,
        c.at,
        c.back,
        c.whole,
        c.before,
        subst₂
            (λ cs k.
              Joined maybe panics (all_ready ss) ss w1 (next_skip (length cs) k)
                (poll maybe 2 (record { futures = cs; skip_next_time = k }) w))
            (sym c.whole) (sym c.before) (poll-Joined maybe 0 c.front c.at c.back w),
      )

  IfAny-FirstIfAny :
      (count i : ℕ) (a : Option (JoinThenTry maybe × W))
      → i < count
      → IfAny count i a
      → FirstIfAny count i a
  IfAny-FirstIfAny count i none h s = tt
  IfAny-FirstIfAny count i (some (j, w)) h s =
      (s.0, subst (λ k. PollsFirst k j w) s.1 (poll-PollsFirst j w (omega arith)))

  -- No branch of `join_then_try!` is always behind another. For each of the branches there is a
  -- number of polls, less than the number of the branches, such that, if all these polls are
  -- pending, the next one begins at that branch: it polls that branch in the world that it finds,
  -- then those after it, then those before it, each once, and answers by `Joined` on what this
  -- round gives. The number of branches is still the same. The world may change between the polls.
  pub after_pending-turn :
      (between : W → W) (j : JoinThenTry maybe) (w : W) (i : ℕ)
      → j.skip_next_time < length j.futures
      → i < length j.futures
      → let count = length j.futures in
        let k = turn count j.skip_next_time i in
        (k < count) × FirstIfAny count i (after_pending between k j w)
  after_pending-turn between j w i h hi =
      let count = length j.futures in
      let k = turn count j.skip_next_time i in
      let t = skip_after-turn count j.skip_next_time i h hi in
      (
        t.0,
        IfAny-FirstIfAny count i (after_pending between k j w) hi (
            subst (λ s. IfAny count s (after_pending between k j w)) t.1
              (after_pending-IfAny between k count j.skip_next_time j w h (refl, refl))),
      )
