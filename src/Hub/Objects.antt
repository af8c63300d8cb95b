-- ===== src/Hub/Objects.antt =====
-- internal/controller/hub.go: what the functions that `controllerutil.CreateOrUpdate` calls make of
-- the hub's objects.
use kubeshark_operator.Common.{none, some, List, [], ◌∷◌, Result, ok}
use kubeshark_operator.Common.Outcome.{◌>>=◌}
use kubeshark_operator.Common.Maps.{StringMap}
use kubeshark_operator.Kube.Meta.{meta_named}
use kubeshark_operator.Kube.Pod.{
  ContainerPort, port_numbered, env_from_field, Container, container_named, pod_of, PodTemplateSpec,
}
use kubeshark_operator.Kube.Workload.{Deployment}
use kubeshark_operator.Kube.Network.{Service}
use kubeshark_operator.Kube.Access.{ConfigMap, ServiceAccount}
use kubeshark_operator.Api.{Kubeshark}
use kubeshark_operator.Names.{
  get_or_default_string, default_hub_image, hub_replicas, hub_service_account_name,
}
use kubeshark_operator.Runtime.{Runtime}
use kubeshark_operator.Hub.Config.{default_hub_config_map_data}

-- `cr.Spec.HubConfigMapData` if it is not nil
unfoldable pub hub_config_map_data : Kubeshark → StringMap
hub_config_map_data cr = elim cr.spec.hub_config_map_data [
  | some d ↦ d
  | none ↦ default_hub_config_map_data
]

abbrev pub ports_or_default : List ContainerPort → List ContainerPort
ports_or_default [] = port_numbered 8080 ∷ []
ports_or_default (p ∷ ports) = p ∷ ports

unfoldable pub hub_container : Kubeshark → Container
unfolding get_or_default_string
hub_container cr =
    record (container_named "kubeshark-hub"
      (get_or_default_string cr.spec.hub_image default_hub_image)) {
        ports = ports_or_default cr.spec.hub_container_ports;
        env =
            env_from_field "POD_NAME" "metadata.name"
            ∷ env_from_field "POD_NAMESPACE" "metadata.namespace"
            ∷ [];
      }

unfoldable pub hub_template : Kubeshark → StringMap → PodTemplateSpec
unfolding hub_container
hub_template cr labels = record {
  meta = record (meta_named "" "") { labels = labels };
  spec = record (pod_of (hub_container cr ∷ [])) {
    service_account_name = hub_service_account_name cr;
  };
}

module _ (R : Runtime) (cr : Kubeshark) (labels : StringMap) where
  unfoldable pub mutate_hub_config_map : ConfigMap → Result ConfigMap
  mutate_hub_config_map cm = do
    meta ← R.set_controller_reference cr.meta cm.meta
    ok (record cm { meta = record meta { labels = labels }; entries = hub_config_map_data cr })

  unfoldable pub mutate_hub_service_account : ServiceAccount → Result ServiceAccount
  mutate_hub_service_account sa = do
    meta ← R.set_controller_reference cr.meta sa.meta
    ok (record sa { meta = record meta { labels = labels } })

  unfoldable pub mutate_hub_deployment : Deployment → Result Deployment
  mutate_hub_deployment dep = do
    meta ← R.set_controller_reference cr.meta dep.meta
    ok (record dep {
      meta = record meta { labels = labels };
      spec = record dep.spec {
        replicas = hub_replicas cr;
        selector = some labels;
        template = hub_template cr labels;
      };
    })

  unfoldable pub mutate_hub_service : Service → Result Service
  mutate_hub_service svc = do
    meta ← R.set_controller_reference cr.meta svc.meta
    ok (record svc {
      meta = record meta { labels = labels };
      spec = record svc.spec {
        selector = labels;
        ports = record { name = ""; port = 80; target_port = 8080 } ∷ [];
      };
    })
