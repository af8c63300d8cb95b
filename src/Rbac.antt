-- ===== src/Rbac.antt =====
-- internal/controller/rbac.go: `reconcileRBAC` and its three steps.
pub mod Objects
pub mod Correct
use kubeshark_operator.Common.Exec.{Exec, pure, wrap_error, ◌>>=◌, ◌>>◌}
use kubeshark_operator.Common.Maps.{StringMap}
use kubeshark_operator.Kube.Meta.{meta_named}
use kubeshark_operator.Kube.Access.{service_account_of, cluster_role_of, cluster_role_binding_of}
use kubeshark_operator.Kube.Object.{service_account, cluster_role, cluster_role_binding}
use kubeshark_operator.Api.{Kubeshark}
use kubeshark_operator.Names.{
  worker_service_account_name, cluster_role_name, cluster_role_binding_name,
}
use kubeshark_operator.Runtime.{Runtime}
use kubeshark_operator.Rbac.Objects.{
  mutate_worker_service_account, mutate_cluster_role, mutate_cluster_role_binding,
}

module _ (R : Runtime) (cr : Kubeshark) (labels : StringMap) where
  unfoldable pub reconcile_worker_service_account : Exec R.World (Unit {0})
  reconcile_worker_service_account = do
    R.create_or_update service_account
        (service_account_of (meta_named (worker_service_account_name cr) cr.meta.namespace))
        (mutate_worker_service_account R cr labels)
    pure tt

  -- Cluster-scoped objects have no namespace.
  unfoldable pub reconcile_cluster_role : Exec R.World (Unit {0})
  reconcile_cluster_role = wrap_error "ClusterRole" do
    R.create_or_update cluster_role
        (cluster_role_of (record (meta_named (cluster_role_name cr) "") { labels = labels }))
        (mutate_cluster_role cr labels)
    pure tt

  unfoldable pub reconcile_cluster_role_binding : Exec R.World (Unit {0})
  reconcile_cluster_role_binding = wrap_error "ClusterRoleBinding" do
    R.create_or_update cluster_role_binding
        (cluster_role_binding_of
          (record (meta_named (cluster_role_binding_name cr) "") { labels = labels }))
        (mutate_cluster_role_binding cr labels)
    pure tt

  unfoldable pub reconcile_rbac : Exec R.World (Unit {0})
  reconcile_rbac = do
    reconcile_worker_service_account
    reconcile_cluster_role
    reconcile_cluster_role_binding
