-- ===== src/Selection.antt =====
-- Which pods the selectors of the operator's Services and workloads select.
use kubeshark_operator.Common.{
  Bool, true, false, some, ◌≡◌, ◌≢◌, arith, eq_iff, eq_refl, Option, none,
}
use kubeshark_operator.Common.Maps.{StringMap, selects}
use kubeshark_operator.Kube.Workload.{Deployment, DaemonSet}
use kubeshark_operator.Kube.Network.{Service}
use kubeshark_operator.Kube.Pod.{PodTemplateSpec}
use kubeshark_operator.Api.{Kubeshark}
use kubeshark_operator.Names.{component_labels}
use kubeshark_operator.Hub.Objects.{hub_template}
use kubeshark_operator.Hub.Desired.{IsHubDeployment, IsHubService}
use kubeshark_operator.Frontend.Objects.{frontend_template}
use kubeshark_operator.Frontend.Desired.{IsFrontendDeployment, IsFrontendService}
use kubeshark_operator.Worker.Pods.{build_worker_daemon_set_spec}
use kubeshark_operator.Worker.Correct.{IsWorkerDaemonSet}

-- Labels select labels of the same instance, and of no other.
component_labels-selects_self :
    (cr : Kubeshark) → selects (component_labels cr) (component_labels cr) ≡ true
unfolding component_labels
component_labels-selects_self cr = simp eq_refl

component_labels-selects_other :
    (x y : Kubeshark)
    → x.meta.name ≢ y.meta.name
    → selects (component_labels x) (component_labels y) ≡ false
unfolding component_labels
component_labels-selects_other x y differ = ground (arith, eq_iff y.meta.name x.meta.name)

-- The five selectors of a resource's workloads and Services, as wanted.
pub record HasObjects (cr : Kubeshark) : Type 0 where
  pub hub : Deployment
  pub hub_service : Service
  pub frontend : Deployment
  pub frontend_service : Service
  pub worker : DaemonSet
  pub is_hub : IsHubDeployment cr (component_labels cr) hub
  pub is_hub_service : IsHubService cr (component_labels cr) hub_service
  pub is_frontend : IsFrontendDeployment cr (component_labels cr) frontend
  pub is_frontend_service : IsFrontendService cr (component_labels cr) frontend_service
  pub is_worker : IsWorkerDaemonSet cr (component_labels cr) worker

abbrev optional_selects : Option StringMap → StringMap → Bool
optional_selects none labels = false
optional_selects (some s) labels = selects s labels

abbrev pod_labels : PodTemplateSpec → StringMap
pod_labels template = template.meta.labels

-- Whom the selectors of `x` select among the pods of `y`: `b` for each workload and Service of `x`
-- and each kind of pods of `y`.
pub record SelectsAll (x y : Kubeshark) (ox : HasObjects x) (oy : HasObjects y) (b : Bool)
    : Type 0 where
  pub hub_deployment_to_hub :
      optional_selects ox.hub.spec.selector (pod_labels oy.hub.spec.template) ≡ b
  pub hub_deployment_to_frontend :
      optional_selects ox.hub.spec.selector (pod_labels oy.frontend.spec.template) ≡ b
  pub hub_deployment_to_worker :
      optional_selects ox.hub.spec.selector (pod_labels oy.worker.spec.template) ≡ b
  pub frontend_deployment_to_hub :
      optional_selects ox.frontend.spec.selector (pod_labels oy.hub.spec.template) ≡ b
  pub frontend_deployment_to_frontend :
      optional_selects ox.frontend.spec.selector (pod_labels oy.frontend.spec.template) ≡ b
  pub frontend_deployment_to_worker :
      optional_selects ox.frontend.spec.selector (pod_labels oy.worker.spec.template) ≡ b
  pub daemon_set_to_hub :
      optional_selects ox.worker.spec.selector (pod_labels oy.hub.spec.template) ≡ b
  pub daemon_set_to_frontend :
      optional_selects ox.worker.spec.selector (pod_labels oy.frontend.spec.template) ≡ b
  pub daemon_set_to_worker :
      optional_selects ox.worker.spec.selector (pod_labels oy.worker.spec.template) ≡ b
  pub hub_service_to_hub :
      selects ox.hub_service.spec.selector (pod_labels oy.hub.spec.template) ≡ b
  pub hub_service_to_frontend :
      selects ox.hub_service.spec.selector (pod_labels oy.frontend.spec.template) ≡ b
  pub hub_service_to_worker :
      selects ox.hub_service.spec.selector (pod_labels oy.worker.spec.template) ≡ b
  pub frontend_service_to_hub :
      selects ox.frontend_service.spec.selector (pod_labels oy.hub.spec.template) ≡ b
  pub frontend_service_to_frontend :
      selects ox.frontend_service.spec.selector (pod_labels oy.frontend.spec.template) ≡ b
  pub frontend_service_to_worker :
      selects ox.frontend_service.spec.selector (pod_labels oy.worker.spec.template) ≡ b

SelectsAll-of_labels :
    (x y : Kubeshark) (ox : HasObjects x) (oy : HasObjects y) (b : Bool)
    → selects (component_labels x) (component_labels y) ≡ b
    → SelectsAll x y ox oy b
unfolding hub_template frontend_template build_worker_daemon_set_spec
SelectsAll-of_labels x y ox oy b h = record {
  hub_deployment_to_hub = rw (ox.is_hub.selector, oy.is_hub.template) h;
  hub_deployment_to_frontend = rw (ox.is_hub.selector, oy.is_frontend.template) h;
  hub_deployment_to_worker = rw (ox.is_hub.selector, oy.is_worker.spec) h;
  frontend_deployment_to_hub = rw (ox.is_frontend.selector, oy.is_hub.template) h;
  frontend_deployment_to_frontend = rw (ox.is_frontend.selector, oy.is_frontend.template) h;
  frontend_deployment_to_worker = rw (ox.is_frontend.selector, oy.is_worker.spec) h;
  daemon_set_to_hub = rw (ox.is_worker.spec, oy.is_hub.template) h;
  daemon_set_to_frontend = rw (ox.is_worker.spec, oy.is_frontend.template) h;
  daemon_set_to_worker = rw (ox.is_worker.spec, oy.is_worker.spec) h;
  hub_service_to_hub = rw (ox.is_hub_service.selector, oy.is_hub.template) h;
  hub_service_to_frontend = rw (ox.is_hub_service.selector, oy.is_frontend.template) h;
  hub_service_to_worker = rw (ox.is_hub_service.selector, oy.is_worker.spec) h;
  frontend_service_to_hub = rw (ox.is_frontend_service.selector, oy.is_hub.template) h;
  frontend_service_to_frontend = rw (ox.is_frontend_service.selector, oy.is_frontend.template) h;
  frontend_service_to_worker = rw (ox.is_frontend_service.selector, oy.is_worker.spec) h;
}

-- For the workloads and Services of one resource, as wanted: each of the two Deployments, the
-- DaemonSet and each of the two Services selects the pods of the hub, of the frontend and of the
-- worker alike.
pub selectors-overlap : (cr : Kubeshark) (o : HasObjects cr) → SelectsAll cr cr o o true
selectors-overlap cr o = SelectsAll-of_labels cr cr o o true (component_labels-selects_self cr)

-- For the workloads and Services of two resources with different names, as wanted: no Deployment,
-- DaemonSet or Service of the first selects the pods of the second's hub, frontend or worker.
pub selectors-separate :
    (x y : Kubeshark) (ox : HasObjects x) (oy : HasObjects y)
    → x.meta.name ≢ y.meta.name
    → SelectsAll x y ox oy false
selectors-separate x y ox oy differ =
    SelectsAll-of_labels x y ox oy false (component_labels-selects_other x y differ)
