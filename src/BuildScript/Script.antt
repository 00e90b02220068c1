-- ===== src/BuildScript/Script.antt =====
-- build.rs: `main`, and the configuration that cargo takes from what it prints.
use Prim.Native.String
use Prim.Native.String.{String}
use text.Mathlib.Text.{◌==◌}
use cancel_safe_futures.Base.{
  Bool, false, ◌||◌, List, [], ◌∷◌, ◌++◌, Result, ok, err, if◌then◌else◌,
}
use cancel_safe_futures.BuildScript.Targets.{no_atomic_cas, contains}

-- A printed line, `cargo:rustc-check-cfg=…` and so on.
pub data Instruction : Type 0 where
  rustc_check_cfg : String → Instruction
  rustc_cfg : String → Instruction
  warning : String → Instruction
  rerun_if_changed : String → Instruction

abbrev pub cas_flag : String
cas_flag = "futures_no_atomic_cas"

module _ {VarError : Type 0} (display : VarError → String) (pkg_name : String) where
  unfoldable pub after_target : Result String VarError → List Instruction
  after_target (err e) =
      warning (
        String.◌++◌ pkg_name
          (String.◌++◌ ": unable to get TARGET environment variable: " (display e)))
      ∷ []
  after_target (ok target) =
      (if contains no_atomic_cas target then rustc_cfg "futures_no_atomic_cas" ∷ [] else [])
      ++ rerun_if_changed "no_atomic_cas.rs" ∷ []

  unfoldable pub main : Result String VarError → List Instruction
  unfolding after_target
  main target =
      rustc_check_cfg "cfg(futures_no_atomic_cas)"
      ∷ rustc_check_cfg "cfg(doc_cfg)"
      ∷ after_target target

-- Whether cargo sets the flag for the crate.
abbrev pub sets : String → Instruction → Bool
sets flag (rustc_cfg f) = f == flag
sets flag (rustc_check_cfg f) = false
sets flag (warning t) = false
sets flag (rerun_if_changed f) = false

unfoldable pub configured : String → List Instruction → Bool
configured flag [] = false
configured flag (i ∷ is) = sets flag i || configured flag is
