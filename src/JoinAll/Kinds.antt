-- ===== src/JoinAll/Kinds.antt =====
-- src/future/join_all_then_try.rs: the two kinds of `JoinAllThenTry`, the choice between them, and
-- `poll`. The bound is the upper `size_hint` of the iterator; the flag is `futures_no_atomic_cas`.
use cancel_safe_futures.Base.{
  returned, ℕ, ◌≡◌, Bool, false, List, [], ◌∷◌, ◌++◌, map, Option, none, some, Result, Poll,
  Outcome, if◌then◌else◌, leb,
}
use cancel_safe_futures.Stream.Defs.{TryStream, Follows, IsCalm}
use cancel_safe_futures.Stream.Collect.Defs.{Collection, CollectThenTry}
use cancel_safe_futures.Stream.Collect.Defs as Collect
use cancel_safe_futures.Stream.Ext.{collect_then_try}
use cancel_safe_futures.Support.{assert_future}
use cancel_safe_futures.Future.MaybeDone.{MaybeDone}
use cancel_safe_futures.Future.Promise.{Settles}
use cancel_safe_futures.JoinAll.Small.{poll_small}

-- `FuturesOrdered`, which is not part of the crate: a stream of the outputs, in the order in which
-- the futures were added.
pub record FuturesOrdered (W F A E : Type 0)
    (poll_future : F → W → Outcome (Poll (Result A E)) × F × W) : Type 1 where
  pub queue : TryStream W A E
  pub collect : List F → queue.Stream
  pub rest : (F → Result A E) → queue.Stream → List (Result A E)
  pub rest-collect : (out : F → Result A E) (fs : List F) → rest out (collect fs) ≡ map out fs
  pub follows :
      (out : F → Result A E)
      → ((f : F) (w : W) → Settles out f (poll_future f w))
      → (q : queue.Stream) (w : W) → Follows queue (rest out) (rest out q) (queue.try_poll_next q w)
  -- it panics only if a future does
  pub calm :
      (out : F → Result A E)
      → ((f : F) (w : W) → Settles out f (poll_future f w))
      → (q : queue.Stream) (w : W) → IsCalm (queue.try_poll_next q w)

-- `Vec<A>` as a collection.
abbrev pub vec : {A : Type 0} → Collection (List A) A
vec = record { default = []; extend = λ xs x. (returned tt, xs ++ x ∷ []) }

abbrev pub small_size : ℕ
small_size = 30

module _ {W F A E : Type 0} {poll_future : F → W → Outcome (Poll (Result A E)) × F × W}
    (maybe : MaybeDone W F (Result A E) poll_future)
    (ordered : FuturesOrdered W F A E poll_future) where
  pub data JoinAllThenTry : Type 0 where
    small : List maybe.Cell → JoinAllThenTry
    big : CollectThenTry ordered.queue (vec {A = A}) → JoinAllThenTry

  abbrev pub new_cells : List F → List maybe.Cell
  new_cells [] = []
  new_cells (f ∷ fs) = maybe.new f ∷ new_cells fs

  -- `Some(max) if max <= SMALL`
  abbrev pub is_small : Option ℕ → Bool
  is_small none = false
  is_small (some max) = leb max small_size

  unfoldable pub join_all_then_try : Bool → Option ℕ → List F → JoinAllThenTry
  unfolding collect_then_try
  join_all_then_try no_atomic_cas upper fs =
      if no_atomic_cas
      then assert_future (small (new_cells fs))
      else assert_future (
          if is_small upper
          then small (new_cells fs)
          else big (collect_then_try ordered.queue vec (ordered.collect fs)))

  -- `FromIterator::from_iter`
  unfoldable pub from_iter : Bool → Option ℕ → List F → JoinAllThenTry
  unfolding join_all_then_try
  from_iter no_atomic_cas upper fs = join_all_then_try no_atomic_cas upper fs

  abbrev pub Answer : Type 0
  Answer = Outcome (Poll (Result (List A) E)) × JoinAllThenTry × W

  abbrev pub as_big : Option (Collect.Answer ordered.queue (vec {A = A})) → Option Answer
  as_big none = none
  as_big (some (r, s, w)) = some (r, big s, w)

  -- Fuel is for the loop of the stream adapter.
  unfoldable pub poll : ℕ → JoinAllThenTry → W → Option Answer
  poll n (small cs) w = let (r, cs', w') = poll_small maybe cs w in some (r, small cs', w')
  poll n (big s) w = as_big (Collect.poll ordered.queue vec n s w)
