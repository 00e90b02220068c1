-- ===== src/BuildScript/Kind.antt =====
-- build.rs with src/future/join_all_then_try.rs: the kind of join that a build for a target uses.
use Prim.Native.String.{String}
use cancel_safe_futures.Base.{
  Outcome, ℕ, ◌≡◌, refl, Bool, true, false, ◌||◌, List, Option, Result, ok, err, Poll, arith,
}
use cancel_safe_futures.BuildScript.Targets.{no_atomic_cas, contains}
use cancel_safe_futures.BuildScript.Script.{main, configured, cas_flag}
use cancel_safe_futures.Future.MaybeDone.{MaybeDone}
use cancel_safe_futures.JoinAll.Kinds.{
  FuturesOrdered, JoinAllThenTry, small, big, is_small, join_all_then_try,
}

module _ {W F A E : Type 0} {poll_future : F → W → Outcome (Poll (Result A E)) × F × W}
    {maybe : MaybeDone W F (Result A E) poll_future}
    {ordered : FuturesOrdered W F A E poll_future} where
  abbrev pub is_small_kind : JoinAllThenTry maybe ordered → Bool
  is_small_kind (small cells) = true
  is_small_kind (big fut) = false

module _ {VarError : Type 0} (display : VarError → String) (pkg_name : String) where
  abbrev pub is_listed : Result String VarError → Bool
  is_listed (ok target) = contains no_atomic_cas target
  is_listed (err e) = false

  main-configured :
      (target : Result String VarError)
      → configured cas_flag (main display pkg_name target) ≡ is_listed target
  unfolding main configured
  main-configured (err e) = refl
  main-configured (ok target) = ground arith

  module _ {W F A E : Type 0} {poll_future : F → W → Outcome (Poll (Result A E)) × F × W}
      (maybe : MaybeDone W F (Result A E) poll_future)
      (ordered : FuturesOrdered W F A E poll_future) where
    -- What the build script prints decides, together with the upper bound of the size, which kind
    -- of join a list gets: the small kind, which needs no atomic operations, if TARGET is in the
    -- list of targets without them, whatever the size; else by the bound alone, also if TARGET is
    -- not set.
    pub main-is_small_kind :
        (target : Result String VarError) (upper : Option ℕ) (fs : List F)
        → is_small_kind (
            join_all_then_try maybe ordered
              (configured cas_flag (main display pkg_name target))
              upper
              fs)
          ≡ (is_listed target || is_small maybe ordered upper)
    unfolding join_all_then_try
    main-is_small_kind target upper fs = ground (arith, main-configured target)
