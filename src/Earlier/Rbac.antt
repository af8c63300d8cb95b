-- ===== src/Earlier/Rbac.antt =====
-- internal/controller/utils.go: `createOrUpdateServiceAccount`,
-- `createOrUpdateWorkerServiceAccount`, `createOrUpdateClusterRole` and
-- `createOrUpdateClusterRoleBinding`.
use kubeshark_operator.Common.{String, Option, List, [], ◌∷◌, Result, ok}
use kubeshark_operator.Common.Exec.{Exec, wrap_error}
use kubeshark_operator.Common.Maps.{StringMap}
use kubeshark_operator.Kube.Access.{
  PolicyRule, ClusterRole, cluster_role_of, Subject, RoleRef, ClusterRoleBinding,
  cluster_role_binding_of, ServiceAccount, service_account_of,
}
use kubeshark_operator.Kube.Object.{service_account, cluster_role, cluster_role_binding}
use kubeshark_operator.Api.{Kubeshark}
use kubeshark_operator.Names.{get_or_default_string}
use kubeshark_operator.Runtime.{Runtime}
use kubeshark_operator.Earlier.Apply.{meta_labelled, applied}

module _ (cr : Kubeshark) (labels : StringMap) where
  unfoldable pub service_account_object : ServiceAccount
  service_account_object =
      service_account_of (meta_labelled "kubeshark-service-account" cr.meta.namespace labels)

  unfoldable pub worker_service_account_object : ServiceAccount
  unfolding get_or_default_string
  worker_service_account_object = service_account_of (
      meta_labelled (get_or_default_string cr.spec.service_account_worker "kubeshark-worker")
        cr.meta.namespace labels)

unfoldable pub cluster_role_object : StringMap → ClusterRole
cluster_role_object labels = cluster_role_of (meta_labelled "kubeshark-cluster-role" "" labels)

unfoldable pub dynamic_rules : List PolicyRule
dynamic_rules =
    record {
      api_groups = "" ∷ [];
      resources =
          "configmaps" ∷ "secrets" ∷ "nodes" ∷ "pods" ∷ "services" ∷ "endpoints"
          ∷ "persistentvolumeclaims" ∷ [];
      resource_names = [];
      verbs = "list" ∷ "get" ∷ "watch" ∷ [];
      non_resource_urls = [];
    }
    ∷ record {
      api_groups = "" ∷ [];
      resources = "namespaces" ∷ [];
      resource_names = "kube-system" ∷ [];
      verbs = "get" ∷ [];
      non_resource_urls = [];
    }
    ∷ record {
      api_groups = "extensions" ∷ "apps" ∷ [];
      resources = "deployments" ∷ [];
      resource_names = [];
      verbs = "get" ∷ "list" ∷ "watch" ∷ [];
      non_resource_urls = [];
    }
    ∷ []

unfoldable pub mutate_cluster_role : ClusterRole → Result ClusterRole
unfolding dynamic_rules
mutate_cluster_role role = ok (record role { rules = dynamic_rules })

unfoldable pub cluster_role_binding_object : StringMap → ClusterRoleBinding
cluster_role_binding_object labels =
    cluster_role_binding_of (meta_labelled "kubeshark-cluster-role-binding" "" labels)

module _ (cr : Kubeshark) where
  unfoldable pub dynamic_subjects : List Subject
  unfolding get_or_default_string
  dynamic_subjects =
      record {
        kind = "ServiceAccount";
        name = get_or_default_string cr.spec.service_account_hub "kubeshark-service-account";
        namespace = cr.meta.namespace;
      }
      ∷ record {
        kind = "ServiceAccount";
        name = get_or_default_string cr.spec.service_account_worker "kubeshark-worker";
        namespace = cr.meta.namespace;
      }
      ∷ []

  unfoldable pub dynamic_role_ref : RoleRef
  unfolding get_or_default_string
  dynamic_role_ref = record {
    kind = "ClusterRole";
    name = get_or_default_string cr.spec.cluster_role_name "kubeshark-cluster-role";
    api_group = "rbac.authorization.k8s.io";
  }

  unfoldable pub mutate_cluster_role_binding : ClusterRoleBinding → Result ClusterRoleBinding
  unfolding dynamic_subjects dynamic_role_ref
  mutate_cluster_role_binding binding =
      ok (record binding { subjects = dynamic_subjects; role_ref = dynamic_role_ref })

module _ (R : Runtime) where
  unfoldable pub create_or_update_service_account :
      Kubeshark → StringMap → Exec R.World (Option ServiceAccount × String)
  create_or_update_service_account cr labels =
      applied R service_account (service_account_object cr labels) (λ sa. ok sa) " ServiceAccount"

  unfoldable pub create_or_update_worker_service_account :
      Kubeshark → StringMap → Exec R.World (Option ServiceAccount × String)
  create_or_update_worker_service_account cr labels =
      wrap_error "failed to create or update Worker ServiceAccount" (
        applied R service_account (worker_service_account_object cr labels) (λ sa. ok sa)
          " Worker ServiceAccount")

  unfoldable pub create_or_update_cluster_role :
      StringMap → Exec R.World (Option ClusterRole × String)
  create_or_update_cluster_role labels =
      wrap_error "failed to create or update ClusterRole"
        (applied R cluster_role (cluster_role_object labels) mutate_cluster_role " ClusterRole")

  unfoldable pub create_or_update_cluster_role_binding :
      Kubeshark → StringMap → Exec R.World (Option ClusterRoleBinding × String)
  create_or_update_cluster_role_binding cr labels =
      wrap_error "failed to create or update ClusterRoleBinding" (
        applied R cluster_role_binding (cluster_role_binding_object labels)
          (mutate_cluster_role_binding cr) " ClusterRoleBinding")
