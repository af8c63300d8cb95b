-- ===== src/Reconcile/Unread.antt =====
-- Fields of the spec that the steps do not read.
use kubeshark_operator.Common.{String, ◌≡◌, refl}
use kubeshark_operator.Common.Maps.{StringMap}
use kubeshark_operator.Api.{Kubeshark}
use kubeshark_operator.Names.{
  get_or_default_string, hub_replicas, component_labels, hub_service_name, hub_deployment_name,
  hub_config_map_name, worker_daemon_set_name, frontend_service_name, frontend_deployment_name,
  frontend_ingress_name, kubeshark_secret_name, hub_service_account_name,
  worker_service_account_name, cluster_role_name, cluster_role_binding_name, worker_image,
}
use kubeshark_operator.Runtime.{Runtime}
use kubeshark_operator.Hub.{
  reconcile_hub, reconcile_hub_config_map, reconcile_hub_service_account, reconcile_hub_deployment,
  reconcile_hub_service,
}
use kubeshark_operator.Hub.Objects.{
  hub_config_map_data, hub_container, hub_template, mutate_hub_config_map,
  mutate_hub_service_account, mutate_hub_deployment, mutate_hub_service,
}
use kubeshark_operator.Rbac.{
  reconcile_rbac, reconcile_worker_service_account, reconcile_cluster_role,
  reconcile_cluster_role_binding,
}
use kubeshark_operator.Rbac.Objects.{
  cluster_role_rules, binding_subjects, binding_role_ref, mutate_worker_service_account,
  mutate_cluster_role, mutate_cluster_role_binding,
}
use kubeshark_operator.Worker.{mutate_worker, reconcile_worker}
use kubeshark_operator.Worker.Pods.{build_worker_daemon_set_spec}
use kubeshark_operator.Frontend.{
  reconcile_frontend, reconcile_frontend_deployment, reconcile_frontend_service,
  reconcile_frontend_ingress,
}
use kubeshark_operator.Frontend.Objects.{
  frontend_template, frontend_rules, mutate_frontend_deployment, mutate_frontend_service,
  mutate_frontend_ingress,
}
use kubeshark_operator.Secret.{mutate_secret, reconcile_secret}
use kubeshark_operator.Reconcile.{steps}

-- The resource with other values of `spec.namespace`, `spec.hubLabels` and `spec.workerLabels`.
abbrev pub relabelled : Kubeshark → String → StringMap → StringMap → Kubeshark
relabelled cr namespace hub_labels worker_labels = record cr {
  spec = record cr.spec {
    namespace = namespace;
    hub_labels = hub_labels;
    worker_labels = worker_labels;
  };
}

-- The five steps are the same actions whatever `spec.namespace`, `spec.hubLabels` and
-- `spec.workerLabels` say.
pub steps-relabelled :
    (R : Runtime) (cr : Kubeshark) (namespace : String) (hub_labels worker_labels : StringMap)
    → steps R (relabelled cr namespace hub_labels worker_labels) ≡ steps R cr
unfolding steps get_or_default_string hub_replicas component_labels hub_service_name
    hub_deployment_name hub_config_map_name worker_daemon_set_name frontend_service_name
    frontend_deployment_name frontend_ingress_name kubeshark_secret_name hub_service_account_name
    worker_service_account_name cluster_role_name cluster_role_binding_name worker_image
    reconcile_hub reconcile_hub_config_map reconcile_hub_service_account reconcile_hub_deployment
    reconcile_hub_service hub_config_map_data hub_container hub_template mutate_hub_config_map
    mutate_hub_service_account mutate_hub_deployment mutate_hub_service reconcile_rbac
    reconcile_worker_service_account reconcile_cluster_role reconcile_cluster_role_binding
    cluster_role_rules binding_subjects binding_role_ref mutate_worker_service_account
    mutate_cluster_role mutate_cluster_role_binding mutate_worker reconcile_worker
    build_worker_daemon_set_spec reconcile_frontend reconcile_frontend_deployment
    reconcile_frontend_service reconcile_frontend_ingress frontend_template frontend_rules
    mutate_frontend_deployment mutate_frontend_service mutate_frontend_ingress mutate_secret
    reconcile_secret
steps-relabelled R cr namespace hub_labels worker_labels = refl
