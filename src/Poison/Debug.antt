-- ===== src/Poison/Debug.antt =====
-- src/sync/poison.rs: the texts that `Debug` and `Display` write, as native strings.
use Prim.Native.String
use Prim.Native.String.{String}
use cancel_safe_futures.Base.{ℕ, Option, none, some, List, [], ◌∷◌, ◌++◌, ◌==◌, if◌then◌else◌}
use cancel_safe_futures.Fmt.{Formatter}
use cancel_safe_futures.Poison.Error.{
  no_poison, panic_poison, cancel_poison, has_bit, PoisonError, TryLockError, poisoned, would_block,
}
use cancel_safe_futures.Poison.Flag.{Flag, get_flags}

-- `Vec::join(", ")`
unfoldable pub join : List String → String
join [] = ""
join (s ∷ []) = s
join (s ∷ t ∷ ts) = String.◌++◌ s (String.◌++◌ ", " (join (t ∷ ts)))

unfoldable pub poisoned_by : ℕ → List String
poisoned_by flags =
    (if has_bit flags panic_poison then "panic" ∷ [] else [])
    ++ (if has_bit flags cancel_poison then "async cancellation" ∷ [] else [])

-- `<DebugFlags as Debug>::fmt`
unfoldable pub debug_flags : ℕ → String
unfolding join poisoned_by
debug_flags flags =
    if flags == no_poison
    then "(not poisoned)"
    else String.◌++◌ "(poisoned by " (String.◌++◌ (join (poisoned_by flags)) ")")

-- `<Flag as Debug>::fmt`
unfoldable pub debug_flag : Flag → String
unfolding debug_flags get_flags
debug_flag f = debug_flags (get_flags f)

module _ {ℓ} {T : Type ℓ} where
  -- `<PoisonError as Display>::fmt`
  unfoldable pub display_poison_error : PoisonError T → String
  unfolding debug_flags
  display_poison_error e = String.◌++◌ "poisoned lock " (debug_flags e.flags)

  -- `<TryLockError as Display>::fmt`
  unfoldable pub display_try_lock_error : TryLockError T → String
  unfolding debug_flags
  display_try_lock_error (poisoned e) = String.◌++◌ "poisoned lock " (debug_flags e.flags)
  display_try_lock_error would_block = "try_lock failed because the operation would block"

  -- `<TryLockError as Error>::cause`
  unfoldable pub cause : TryLockError T → Option (PoisonError T)
  cause (poisoned e) = some e
  cause would_block = none

  module _ (f : Formatter) where
    -- `<PoisonError as Debug>::fmt`: the guard is left out.
    unfoldable pub debug_poison_error : PoisonError T → f.Text
    unfolding debug_flags
    debug_poison_error e =
        f.finish_non_exhaustive
          (f.field "flags" (f.text (debug_flags e.flags)) (f.debug_struct "PoisonError"))

    -- `<TryLockError as Debug>::fmt`
    unfoldable pub debug_try_lock_error : TryLockError T → f.Text
    unfolding debug_poison_error
    debug_try_lock_error (poisoned e) =
        f.finish (f.tuple_field (debug_poison_error e) (f.debug_tuple "Poisoned"))
    debug_try_lock_error would_block = f.finish (f.debug_tuple "WouldBlock")
