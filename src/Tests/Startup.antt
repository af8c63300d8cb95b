-- ===== src/Tests/Startup.antt =====
-- A start of the process whose ready check cannot be added, and what is watched.
use kubeshark_operator.Common.{ℕ, zero, true, false, String, [], ◌∷◌, ok, err, Error, All}
use kubeshark_operator.Reconcile.Wanted.{wants}
use kubeshark_operator.Reconcile.Watches.{Noticed, wants-AllNoticed}
use kubeshark_operator.Setup.Flags.{default_flags}
use kubeshark_operator.Setup.Options.{TlsConfig, manager_options}
use kubeshark_operator.Setup.Serving.{IsProtected, manager_options-IsProtected}
use kubeshark_operator.Setup.Start.{Managers, exited, main, try_or_exit}
use kubeshark_operator.Setup.Order.{
  Runs, startup, noted, main-Runs, new_manager, complete, add_healthz_check, add_readyz_check,
}
use kubeshark_operator.Tests.{demo}

wants-AllNoticed_example : All (Noticed demo) (wants demo)
wants-AllNoticed_example = wants-AllNoticed demo

abbrev scheme : String
scheme = "scheme"

abbrev new_config : TlsConfig
new_config = record { next_protos = "h2" ∷ "http/1.1" ∷ []; other = [] }

manager_options-IsProtected_example :
    IsProtected default_flags (manager_options scheme default_flags) new_config
manager_options-IsProtected_example = manager_options-IsProtected scheme default_flags new_config

abbrev taken : Error
taken = record { is_not_found = false; text = "the check exists" }

-- A library that refuses the ready check.
abbrev refusing : Managers
refusing = record {
  World = ℕ;
  Scheme = String;
  Config = String;
  Manager = String;
  new_manager = λ config options w. (ok config, w);
  complete = λ mgr controller w. (ok tt, w);
  add_healthz_check = λ mgr name w. (ok tt, w);
  add_readyz_check = λ mgr name w. (err taken, w);
  start = λ mgr w. (ok tt, w);
}

main-Runs_example :
    Runs startup
      ((new_manager, true)
        ∷ (complete, true)
        ∷ (add_healthz_check, true)
        ∷ (add_readyz_check, false)
        ∷ [])
      (exited 1 "Failed to set up ready check")
unfolding main noted try_or_exit
main-Runs_example = main-Runs refusing "scheme" "config" default_flags zero
