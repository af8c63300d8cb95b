-- ===== src/Tests/Labels.antt =====
-- How the objects of two resources fit together.
use kubeshark_operator.Common.{every, false, true, [], ◌∷◌, ◌≡◌, refl, arith, eq_iff}
use kubeshark_operator.Kube.Pod.{port_numbered}
use kubeshark_operator.Kube.Network.{ServicePort}
use kubeshark_operator.Names.{component_labels}
use kubeshark_operator.Worker.Pods.{build_worker_daemon_set_spec}
use kubeshark_operator.Selection.{SelectsAll, selectors-overlap, selectors-separate}
use kubeshark_operator.Earlier.{earlier-eq-current}
use kubeshark_operator.Earlier.Pods as Old
use kubeshark_operator.Api.{Kubeshark}
use kubeshark_operator.Idempotence.{AllSettle, mutate-AllSettle}
use kubeshark_operator.Memory.Lawful.{memory-HasUtilities}
use kubeshark_operator.Wiring.Permissions.{IsGranted, pods-AreGranted}
use kubeshark_operator.Wiring.Ports.{hub-listens}
use kubeshark_operator.Wiring.Route.{listens_on, IsRouted, frontend-IsRouted}
use kubeshark_operator.Reconcile.{steps}
use kubeshark_operator.Reconcile.Unread.{relabelled, steps-relabelled}
use kubeshark_operator.Tests.{allow, demo, second, permissive}
use kubeshark_operator.Tests.Objects.{
  objects_of, binding_of, ingress_of_frontend, ingress-IsFrontendIngress,
}

selectors-overlap_example : SelectsAll demo demo (objects_of demo) (objects_of demo) true
selectors-overlap_example = selectors-overlap demo (objects_of demo)

selectors-separate_example : SelectsAll demo second (objects_of demo) (objects_of second) false
selectors-separate_example =
    selectors-separate demo second (objects_of demo) (objects_of second)
      (λ e. ground (arith, e, eq_iff "demo" "second"))

pods-AreGranted_example :
    IsGranted demo (binding_of demo) (objects_of demo).hub.spec.template
    × IsGranted demo (binding_of demo) (objects_of demo).worker.spec.template
pods-AreGranted_example =
    pods-AreGranted demo (objects_of demo).hub (objects_of demo).worker (binding_of demo)
      (objects_of demo).is_hub (objects_of demo).is_worker
      (record { labelled = refl; role_ref = refl; subjects = refl })

frontend-IsRouted_example :
    IsRouted demo
      (ingress_of_frontend demo)
      (objects_of demo).frontend_service
      (objects_of demo).frontend
frontend-IsRouted_example =
    frontend-IsRouted demo (ingress_of_frontend demo) (objects_of demo).frontend_service
      (objects_of demo).frontend (ingress-IsFrontendIngress demo)
      (objects_of demo).is_frontend_service (objects_of demo).is_frontend

steps-relabelled_example :
    steps permissive (relabelled demo "elsewhere" (("team", "hub") ∷ []) (("team", "worker") ∷ []))
    ≡ steps permissive demo
steps-relabelled_example =
    steps-relabelled permissive demo "elsewhere" (("team", "hub") ∷ []) (("team", "worker") ∷ [])

mutate-AllSettle_example : AllSettle permissive demo (component_labels demo)
mutate-AllSettle_example =
    mutate-AllSettle permissive (memory-HasUtilities allow) demo (component_labels demo)

-- A resource that sets the worker's image and account.
abbrev explicit : Kubeshark
explicit = record demo {
  spec = record demo.spec { worker_image = "worker:v1"; service_account_worker = "sniffers" };
}

earlier-eq-current_example :
    Old.build_worker_daemon_set_spec explicit [] ≡ build_worker_daemon_set_spec explicit []
earlier-eq-current_example =
    earlier-eq-current explicit [] (λ e. ground (arith, e, eq_iff "worker:v1" ""))
      (λ e. ground (arith, e, eq_iff "sniffers" ""))

-- A resource whose hub listens elsewhere.
abbrev moved_hub : Kubeshark
moved_hub = record demo {
  spec = record demo.spec { hub_container_ports = port_numbered 9090 ∷ [] };
}

hub-listens_example :
    every
      (λ (p : ServicePort). listens_on (objects_of moved_hub).hub.spec.template p.target_port)
      (objects_of moved_hub).hub_service.spec.ports
    ≡ false
hub-listens_example =
    hub-listens moved_hub (component_labels moved_hub) (objects_of moved_hub).hub_service
      (objects_of moved_hub).hub (objects_of moved_hub).is_hub_service (objects_of moved_hub).is_hub
