-- ===== src/Tests/Refusals.antt =====
-- A call of Reconcile for an active resource, on a server that forbids to write Deployments.
use kubeshark_operator.Common.{List, ◌++◌, ◌≡◌, refl, ok, err, Error, false, Bool, [], ◌∷◌}
use kubeshark_operator.Common.Exec.{pure, wrap_error, ◌>>=◌}
use kubeshark_operator.Kube.Object.{Ref, deployment, same_kind}
use kubeshark_operator.Api.{key_of}
use kubeshark_operator.Names.{component_labels}
use kubeshark_operator.Runtime.{Runtime}
use kubeshark_operator.Memory.{memory}
use kubeshark_operator.Memory.Lawful.{memory-IsLawful}
use kubeshark_operator.Memory.Store.{put}
use kubeshark_operator.Memory.Server.{World, create_or_update}
use kubeshark_operator.Hub.{
  reconcile_hub, reconcile_hub_config_map, reconcile_hub_deployment, reconcile_hub_service_account,
}
use kubeshark_operator.Hub.Objects.{mutate_hub_config_map, mutate_hub_service_account}
use kubeshark_operator.Rbac.{reconcile_rbac}
use kubeshark_operator.Worker.{reconcile_worker}
use kubeshark_operator.Frontend.{reconcile_frontend}
use kubeshark_operator.Secret.{reconcile_secret}
use kubeshark_operator.Status.{set_ready_condition}
use kubeshark_operator.Status.Correct.{Shows}
use kubeshark_operator.Kube.Meta.{condition_false}
use kubeshark_operator.Reconcile.{Step, reconcile, steps}
use kubeshark_operator.Reconcile.Loop.{sequence}
use kubeshark_operator.Reconcile.Paths.{IsActive}
use kubeshark_operator.Reconcile.Failure.{reconcile-first_failure, reconcile_failed-Shows}
use kubeshark_operator.Tests.{demo, holding}

-- A server that forbids to write Deployments.
no_deployments : Ref → Bool
unfolding same_kind
no_deployments r = same_kind r.kind deployment

abbrev strict : Runtime
strict = memory no_deployments

abbrev refused : Error
refused = record { is_not_found = false; text = "hub Deployment: forbidden" }

demo-IsActive : IsActive strict (key_of demo) (holding demo) demo
demo-IsActive = record { got = refl; live = refl; held = refl }

hub_is_refused : (reconcile_hub strict demo (component_labels demo) (holding demo)).0 ≡ err refused
unfolding reconcile_hub reconcile_hub_config_map reconcile_hub_service_account
    reconcile_hub_deployment mutate_hub_config_map mutate_hub_service_account create_or_update pure
    ◌>>=◌ wrap_error put no_deployments same_kind
hub_is_refused = refl

-- The steps after the first.
other_steps : List (Step strict)
other_steps =
    ("rbac", reconcile_rbac strict demo (component_labels demo))
    ∷ ("worker", reconcile_worker strict demo (component_labels demo))
    ∷ ("frontend", reconcile_frontend strict demo (component_labels demo))
    ∷ ("secret", reconcile_secret strict demo (component_labels demo))
    ∷ []

steps-demo :
    steps strict demo
    ≡ ◌++◌ [] (("hub", reconcile_hub strict demo (component_labels demo)) ∷ other_steps)
unfolding steps other_steps
steps-demo = refl

nothing_before : (sequence strict [] (holding demo)).0 ≡ ok tt
unfolding sequence pure
nothing_before = refl

-- The cluster as the hub's step leaves it.
abbrev after_hub : World
after_hub =
    (reconcile_hub strict demo (component_labels demo) (sequence strict [] (holding demo)).1).1

reconcile-first_failure_example : reconcile strict (key_of demo) (holding demo) ≡ (
  err refused,
  (set_ready_condition strict demo false "ReconcileError" "hub Deployment: forbidden" after_hub).1,
)
unfolding sequence pure
reconcile-first_failure_example =
    reconcile-first_failure strict (memory-IsLawful no_deployments) (key_of demo) (holding demo)
      demo [] other_steps "hub" (reconcile_hub strict demo (component_labels demo)) refused
      demo-IsActive steps-demo nothing_before hub_is_refused

steps_are_refused : (sequence strict (steps strict demo) (holding demo)).0 ≡ err refused
unfolding sequence steps ◌>>=◌
steps_are_refused = rw hub_is_refused

reconcile_failed-Shows_example :
    ((reconcile strict (key_of demo) (holding demo)).0 ≡ err refused)
    × ((set_ready_condition strict demo false "ReconcileError" "hub Deployment: forbidden"
            (sequence strict (steps strict demo) (holding demo)).1).0
          ≡ ok tt
        → Shows strict
            (reconcile strict (key_of demo) (holding demo)).1
            demo
            condition_false
            "ReconcileError"
            "hub Deployment: forbidden")
reconcile_failed-Shows_example =
    reconcile_failed-Shows strict (memory-IsLawful no_deployments) (key_of demo) (holding demo) demo
      refused demo-IsActive steps_are_refused
