-- ===== src/Frontend.antt =====
-- internal/controller/frontend.go: `reconcileFrontend` and its three steps.
pub mod Objects
pub mod Desired
pub mod Correct
use kubeshark_operator.Common.Exec.{Exec, pure, wrap_error, ◌>>=◌, ◌>>◌}
use kubeshark_operator.Common.Maps.{StringMap}
use kubeshark_operator.Kube.Meta.{meta_named}
use kubeshark_operator.Kube.Workload.{deployment_of}
use kubeshark_operator.Kube.Network.{service_of, ingress_of}
use kubeshark_operator.Kube.Object.{deployment, service, ingress}
use kubeshark_operator.Api.{Kubeshark}
use kubeshark_operator.Names.{
  frontend_deployment_name, frontend_service_name, frontend_ingress_name,
}
use kubeshark_operator.Runtime.{Runtime}
use kubeshark_operator.Frontend.Objects.{
  mutate_frontend_deployment, mutate_frontend_service, mutate_frontend_ingress,
}

module _ (R : Runtime) (cr : Kubeshark) (labels : StringMap) where
  unfoldable pub reconcile_frontend_deployment : Exec R.World (Unit {0})
  reconcile_frontend_deployment = wrap_error "frontend Deployment" do
    R.create_or_update deployment
        (deployment_of (meta_named (frontend_deployment_name cr) cr.meta.namespace))
        (mutate_frontend_deployment R cr labels)
    pure tt

  unfoldable pub reconcile_frontend_service : Exec R.World (Unit {0})
  reconcile_frontend_service = do
    R.create_or_update service
        (service_of (meta_named (frontend_service_name cr) cr.meta.namespace))
        (mutate_frontend_service R cr labels)
    pure tt

  unfoldable pub reconcile_frontend_ingress : Exec R.World (Unit {0})
  reconcile_frontend_ingress = do
    R.create_or_update ingress
        (ingress_of (meta_named (frontend_ingress_name cr) cr.meta.namespace))
        (mutate_frontend_ingress R cr labels)
    pure tt

  unfoldable pub reconcile_frontend : Exec R.World (Unit {0})
  reconcile_frontend = do
    reconcile_frontend_deployment
    reconcile_frontend_service
    reconcile_frontend_ingress
