-- ===== src/Rbac/Objects.antt =====
-- internal/controller/rbac.go: what the functions that `controllerutil.CreateOrUpdate` calls make
-- of the worker's service account, the cluster role and its binding.
use kubeshark_operator.Common.{List, [], ◌∷◌, Result, ok}
use kubeshark_operator.Common.Outcome.{◌>>=◌}
use kubeshark_operator.Common.Maps.{StringMap}
use kubeshark_operator.Kube.Access.{
  PolicyRule, ClusterRole, ClusterRoleBinding, RoleRef, ServiceAccount, Subject,
}
use kubeshark_operator.Api.{Kubeshark}
use kubeshark_operator.Names.{
  cluster_role_name, hub_service_account_name, worker_service_account_name,
}
use kubeshark_operator.Runtime.{Runtime}

unfoldable pub default_cluster_role_rules : List PolicyRule
default_cluster_role_rules =
    record {
      api_groups = "" ∷ [];
      resources =
          "configmaps" ∷ "secrets" ∷ "nodes" ∷ "pods" ∷ "services" ∷ "endpoints"
          ∷ "persistentvolumeclaims" ∷ [];
      resource_names = [];
      verbs = "list" ∷ "get" ∷ "watch" ∷ [];
      non_resource_urls = [];
    }
    ∷ record {
      api_groups = "" ∷ [];
      resources = "namespaces" ∷ [];
      resource_names = "kube-system" ∷ [];
      verbs = "get" ∷ [];
      non_resource_urls = [];
    }
    ∷ record {
      api_groups = "extensions" ∷ "apps" ∷ [];
      resources = "deployments" ∷ [];
      resource_names = [];
      verbs = "get" ∷ "list" ∷ "watch" ∷ [];
      non_resource_urls = [];
    }
    ∷ []

-- `len(rules) > 0`
abbrev pub rules_or_default : List PolicyRule → List PolicyRule
rules_or_default [] = default_cluster_role_rules
rules_or_default (r ∷ rules) = r ∷ rules

unfoldable pub cluster_role_rules : Kubeshark → List PolicyRule
cluster_role_rules cr = rules_or_default cr.spec.cluster_role_rules

unfoldable pub binding_subjects : Kubeshark → List Subject
binding_subjects cr =
    record {
      kind = "ServiceAccount";
      name = hub_service_account_name cr;
      namespace = cr.meta.namespace;
    }
    ∷ record {
      kind = "ServiceAccount";
      name = worker_service_account_name cr;
      namespace = cr.meta.namespace;
    }
    ∷ []

unfoldable pub binding_role_ref : Kubeshark → RoleRef
binding_role_ref cr = record {
  api_group = "rbac.authorization.k8s.io";
  kind = "ClusterRole";
  name = cluster_role_name cr;
}

module _ (R : Runtime) (cr : Kubeshark) (labels : StringMap) where
  unfoldable pub mutate_worker_service_account : ServiceAccount → Result ServiceAccount
  mutate_worker_service_account sa = do
    meta ← R.set_controller_reference cr.meta sa.meta
    ok (record sa { meta = record meta { labels = labels } })

module _ (cr : Kubeshark) (labels : StringMap) where
  unfoldable pub mutate_cluster_role : ClusterRole → Result ClusterRole
  mutate_cluster_role role =
      ok
        (record role { meta = record role.meta { labels = labels }; rules = cluster_role_rules cr })

  unfoldable pub mutate_cluster_role_binding : ClusterRoleBinding → Result ClusterRoleBinding
  mutate_cluster_role_binding binding = ok (record binding {
    meta = record binding.meta { labels = labels };
    role_ref = binding_role_ref cr;
    subjects = binding_subjects cr;
  })
