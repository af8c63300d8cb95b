-- ===== src/Reconcile/Loop.antt =====
-- The loop over the steps runs them in sequence, and then reports how that ended.
use kubeshark_operator.Common.{true, false, [], ◌∷◌, List, ◌≡◌, refl, Result, ok, err}
use kubeshark_operator.Common.Exec.{Exec, pure, continue, ◌>>=◌, ◌>>◌}
use kubeshark_operator.Api.{Kubeshark}
use kubeshark_operator.Runtime.{Runtime}
use kubeshark_operator.Status.{set_ready_condition}
use kubeshark_operator.Reconcile.{Step, after_step, run_steps}

module _ (R : Runtime) where
  -- The steps alone.
  unfoldable pub sequence : List (Step R) → Exec R.World (Unit {0})
  sequence [] = pure tt
  sequence ((_, fn) ∷ rest) = fn >> sequence rest

  -- The report: Ready is true after all steps, and what the report returns is returned. It is false
  -- with the error's text after a failure, and that error is returned, whatever the report returns.
  abbrev pub report : Kubeshark → Result (Unit {0}) → Exec R.World (Unit {0})
  report cr (ok _) w = set_ready_condition R cr true "Reconciled" "All components reconciled" w
  report cr (err e) w = (err e, (set_ready_condition R cr false "ReconcileError" e.text w).1)

  report_step :
      (cr : Kubeshark) (rest : List (Step R)) (res : Result (Unit {0})) (w : R.World)
      → ((v : R.World) → run_steps R cr rest v ≡ report cr (sequence rest v).0 (sequence rest v).1)
      → after_step R cr res (run_steps R cr rest) w
        ≡ report cr (continue res (λ _. sequence rest) w).0 (continue res (λ _. sequence rest) w).1
  report_step cr rest (ok _) w ih = ih w
  report_step cr rest (err e) w ih = refl

  -- For every list of steps, run from any state: the loop has the effects of the steps in sequence,
  -- up to the first that fails, followed by one call of setReadyCondition. After a failure it is
  -- called with false, "ReconcileError" and the error's text, and the loop returns that error
  -- whatever the call returns; else it is called with true, "Reconciled" and its message, and the
  -- loop returns what the call returns.
  pub run_steps_lem :
      (cr : Kubeshark) (ss : List (Step R)) (w : R.World)
      → run_steps R cr ss w ≡ report cr (sequence ss w).0 (sequence ss w).1
  unfolding run_steps sequence pure ◌>>=◌
  run_steps_lem cr [] w = refl
  run_steps_lem cr ((_, fn) ∷ rest) w =
      let (res, w') = fn w in report_step cr rest res w' (run_steps_lem cr rest)
