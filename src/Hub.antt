-- ===== src/Hub.antt =====
-- internal/controller/hub.go: `reconcileHub` and its four steps.
pub mod Config
pub mod Objects
pub mod Desired
pub mod Correct
use kubeshark_operator.Common.Exec.{Exec, pure, wrap_error, ◌>>=◌, ◌>>◌}
use kubeshark_operator.Common.Maps.{StringMap}
use kubeshark_operator.Kube.Meta.{meta_named}
use kubeshark_operator.Kube.Workload.{deployment_of}
use kubeshark_operator.Kube.Network.{service_of}
use kubeshark_operator.Kube.Access.{config_map_of, service_account_of}
use kubeshark_operator.Kube.Object.{config_map, service_account, deployment, service}
use kubeshark_operator.Api.{Kubeshark}
use kubeshark_operator.Names.{
  hub_config_map_name, hub_service_account_name, hub_deployment_name, hub_service_name,
}
use kubeshark_operator.Runtime.{Runtime}
use kubeshark_operator.Hub.Objects.{
  mutate_hub_config_map, mutate_hub_service_account, mutate_hub_deployment, mutate_hub_service,
}

module _ (R : Runtime) (cr : Kubeshark) (labels : StringMap) where
  unfoldable pub reconcile_hub_config_map : Exec R.World (Unit {0})
  reconcile_hub_config_map = do
    R.create_or_update config_map
        (config_map_of (meta_named (hub_config_map_name cr) cr.meta.namespace))
        (mutate_hub_config_map R cr labels)
    pure tt

  unfoldable pub reconcile_hub_service_account : Exec R.World (Unit {0})
  reconcile_hub_service_account = do
    R.create_or_update service_account
        (service_account_of (meta_named (hub_service_account_name cr) cr.meta.namespace))
        (mutate_hub_service_account R cr labels)
    pure tt

  unfoldable pub reconcile_hub_deployment : Exec R.World (Unit {0})
  reconcile_hub_deployment = wrap_error "hub Deployment" do
    R.create_or_update deployment
        (deployment_of (meta_named (hub_deployment_name cr) cr.meta.namespace))
        (mutate_hub_deployment R cr labels)
    pure tt

  unfoldable pub reconcile_hub_service : Exec R.World (Unit {0})
  reconcile_hub_service = do
    R.create_or_update service (service_of (meta_named (hub_service_name cr) cr.meta.namespace))
        (mutate_hub_service R cr labels)
    pure tt

  unfoldable pub reconcile_hub : Exec R.World (Unit {0})
  reconcile_hub = do
    reconcile_hub_config_map
    reconcile_hub_service_account
    reconcile_hub_deployment
    reconcile_hub_service
