-- ===== src/BuildScript/Examples.antt =====
-- Builds for a target of the list, and without TARGET.
use Prim.Native.String.{String}
use cancel_safe_futures.Base.{◌≡◌, refl, Bool, true, false, ok, err, none, [], ◌∷◌}
use cancel_safe_futures.BuildScript.Script.{main, configured, cas_flag, rustc_check_cfg, warning}
use cancel_safe_futures.BuildScript.Targets.{contains}
use cancel_safe_futures.BuildScript.Kind.{is_small_kind, main-is_small_kind}
use cancel_safe_futures.Future.Samples.{slots}
use cancel_safe_futures.JoinAll.Kinds.{join_all_then_try}
use cancel_safe_futures.JoinAll.Samples.{ordered}

abbrev display : Bool → String
display true = "environment variable not found"
display false = "environment variable was not valid unicode"

no_target :
    main display "cancel-safe-futures" (err true)
    ≡ rustc_check_cfg "cfg(futures_no_atomic_cas)"
      ∷ rustc_check_cfg "cfg(doc_cfg)"
      ∷ warning
          "cancel-safe-futures: unable to get TARGET environment variable: environment variable not found"
      ∷ []
unfolding main
no_target = refl

main-is_small_kind_example :
    is_small_kind (
      join_all_then_try slots ordered
        (configured cas_flag (main display "cancel-safe-futures" (ok "thumbv6m-none-eabi")))
        none
        [])
    ≡ true
unfolding contains
main-is_small_kind_example =
    main-is_small_kind display "cancel-safe-futures" slots ordered (ok "thumbv6m-none-eabi") none []
