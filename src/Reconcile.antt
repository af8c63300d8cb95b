-- ===== src/Reconcile.antt =====
-- internal/controller/kubeshark_controller.go: `Reconcile`. Its `ctrl.Result` is empty on every
-- path, so that a call returns nil or an error. Log lines are left out.
pub mod Loop
pub mod Wanted
pub mod Specified
pub mod Paths
pub mod Adoption
pub mod Unread
pub mod Success
pub mod Parts
pub mod Progress
pub mod Frame
pub mod Guard
pub mod History
pub mod Renaming
pub mod Convergence
pub mod Vanishing
pub mod Watches
pub mod Isolation
pub mod Sharing
pub mod Deletion
pub mod Failure
use kubeshark_operator.Common.{
  ℕ, Option, String, true, false, none, some, List, [], ◌∷◌, Result, ok, err, if◌then◌else◌,
}
use kubeshark_operator.Common.Exec.{Exec}
use kubeshark_operator.Kube.Meta.{NamespacedName}
use kubeshark_operator.Api.{Kubeshark}
use kubeshark_operator.Names.{finalizer_name, component_labels}
use kubeshark_operator.Runtime.{Runtime}
use kubeshark_operator.Hub.{reconcile_hub}
use kubeshark_operator.Rbac.{reconcile_rbac}
use kubeshark_operator.Worker.{reconcile_worker}
use kubeshark_operator.Frontend.{reconcile_frontend}
use kubeshark_operator.Secret.{reconcile_secret}
use kubeshark_operator.Status.{set_ready_condition}
use kubeshark_operator.Finalizer.{ignore_not_found, reconcile_delete}

module _ (R : Runtime) where
  abbrev pub Step : Type 0
  Step = String × Exec R.World (Unit {0})

  unfoldable pub steps : Kubeshark → List Step
  steps cr =
      ("hub", reconcile_hub R cr (component_labels cr))
      ∷ ("rbac", reconcile_rbac R cr (component_labels cr))
      ∷ ("worker", reconcile_worker R cr (component_labels cr))
      ∷ ("frontend", reconcile_frontend R cr (component_labels cr))
      ∷ ("secret", reconcile_secret R cr (component_labels cr))
      ∷ []

  -- `_ = r.setReadyCondition(ctx, &cr, false, reason, err.Error()); return ctrl.Result{}, err`
  abbrev pub fail_with : Kubeshark → String → Result (Unit {0}) → Exec R.World (Unit {0})
  fail_with cr reason (ok _) w = (ok tt, w)
  fail_with cr reason (err e) w = (err e, (set_ready_condition R cr false reason e.text w).1)

  -- What follows a step: the rest of the loop, or the way out.
  abbrev pub after_step :
      Kubeshark → Result (Unit {0}) → Exec R.World (Unit {0}) → Exec R.World (Unit {0})
  after_step cr (ok _) rest w = rest w
  after_step cr (err e) rest w = fail_with cr "ReconcileError" (err e) w

  unfoldable pub run_steps : Kubeshark → List Step → Exec R.World (Unit {0})
  run_steps cr [] w = set_ready_condition R cr true "Reconciled" "All components reconciled" w
  run_steps cr ((name, fn) ∷ rest) w =
      let (res, w') = fn w in after_step cr res (run_steps cr rest) w'

  -- The branch of a resource that is being deleted.
  unfoldable pub finish_delete : Kubeshark → Exec R.World (Unit {0})
  finish_delete cr w =
      let (res, cr', w') = reconcile_delete R cr w in fail_with cr' "DeleteFailed" res w'

  abbrev pub with_finalizer : Kubeshark → Kubeshark
  with_finalizer cr = record cr {
    meta = record cr.meta { finalizers = R.add_finalizer cr.meta.finalizers finalizer_name };
  }

  unfoldable pub reconcile_live : Kubeshark → Exec R.World (Unit {0})
  reconcile_live cr w =
      if R.contains_finalizer cr.meta.finalizers finalizer_name
      then run_steps cr (steps cr) w
      else R.update (with_finalizer cr) w

  -- `!cr.DeletionTimestamp.IsZero()`
  abbrev pub by_timestamp : Option ℕ → Kubeshark → Exec R.World (Unit {0})
  by_timestamp (some _) cr = finish_delete cr
  by_timestamp none cr = reconcile_live cr

  unfoldable pub reconcile_found : Kubeshark → Exec R.World (Unit {0})
  reconcile_found cr = by_timestamp cr.meta.deletion_timestamp cr

  abbrev after_get : Result Kubeshark → Exec R.World (Unit {0})
  after_get (err e) w = (ignore_not_found (err e), w)
  after_get (ok cr) w = reconcile_found cr w

  unfoldable pub reconcile : NamespacedName → Exec R.World (Unit {0})
  reconcile req w = let (got, w') = R.get req w in after_get got w'
