-- ===== src/Setup/Start.antt =====
-- cmd/main.go: `init`, and what `main` does after the flags are parsed.
use kubeshark_operator.Common.{ℕ, String, Result, ok, err}
use kubeshark_operator.Common.Outcome.{◌>>=◌}
use kubeshark_operator.Common.Exec.{Exec}
use kubeshark_operator.Reconcile.Watches.{ControllerSetup, setup_with_manager}
use kubeshark_operator.Setup.Flags.{Flags}
use kubeshark_operator.Setup.Options.{ManagerOptions, manager_options}

-- The functions of controller-runtime that `main` calls, on a state of the process.
pub record Managers : Type 1 where
  pub World : Type 0
  pub Scheme : Type 0
  pub Config : Type 0
  pub Manager : Type 0
  pub new_manager : Config → ManagerOptions Scheme → Exec World Manager
  -- `Complete` of the controller's builder
  pub complete : Manager → ControllerSetup → Exec World (Unit {0})
  -- The checks are `healthz.Ping`.
  pub add_healthz_check : Manager → String → Exec World (Unit {0})
  pub add_readyz_check : Manager → String → Exec World (Unit {0})
  pub start : Manager → Exec World (Unit {0})

-- `init`: the types of Kubernetes and those of the operator are added to a new scheme. `Must` panics
-- with the error.
unfoldable pub init :
    {Scheme : Type 0} (add_client_go add_kubeshark : Scheme → Result Scheme)
    → Scheme
    → Result Scheme
init add_client_go add_kubeshark scheme = do known ← add_client_go scheme; add_kubeshark known

-- How `main` ends: it returns, or exits with a code after a message in the log.
pub data Ending : Type 0 where
  returned : Ending
  exited : ℕ → String → Ending

module _ {W : Type 0} where
  -- `if err != nil { setupLog.Error(err, message); os.Exit(1) }`, and the rest
  abbrev pub exit_or : {A : Type 0} → String → Result A → (A → W → Ending × W) → W → Ending × W
  exit_or message (err e) next w = (exited 1 message, w)
  exit_or message (ok a) next w = next a w

  unfoldable pub try_or_exit :
      {A : Type 0} → String → Exec W A → (A → W → Ending × W) → W → Ending × W
  try_or_exit message call next w = let (res, w') = call w in exit_or message res next w'

-- From `ctrl.NewManager` on. `config` is what `ctrl.GetConfigOrDie` returned.
unfoldable pub main : (S : Managers) → S.Scheme → S.Config → Flags → S.World → Ending × S.World
unfolding try_or_exit manager_options setup_with_manager
main S scheme config flags =
    try_or_exit "Failed to start manager" (S.new_manager config (manager_options scheme flags))
      λ mgr. try_or_exit "Failed to create controller" (setup_with_manager (S.complete mgr)) λ _.
        try_or_exit "Failed to set up health check" (S.add_healthz_check mgr "healthz") λ _.
          try_or_exit "Failed to set up ready check" (S.add_readyz_check mgr "readyz")
            λ _. try_or_exit "Failed to run manager" (S.start mgr) λ _ w. (returned, w)
