-- ===== src/Earlier/References.antt =====
-- internal/controller/utils.go: whether the names that the earlier objects refer to are those of
-- the objects that the earlier code applied.
use kubeshark_operator.Common.{String, ◌≡◌, ◌↔◌, ◌⊎◌, ok, arith, eq_iff}
use kubeshark_operator.Common.Maps.{StringMap}
use kubeshark_operator.Kube.Access.{ClusterRoleBinding}
use kubeshark_operator.Api.{Kubeshark}
use kubeshark_operator.Names.{get_or_default_string}
use kubeshark_operator.Earlier.Hub.{hub_template}
use kubeshark_operator.Earlier.Rbac.{
  service_account_object, cluster_role_object, mutate_cluster_role_binding, dynamic_role_ref,
}

-- The field is left empty, or set to its default.
abbrev pub IsUnset : String → String → Type 0
IsUnset value default_value = (value ≡ "") ⊎ (value ≡ default_value)

-- The binding leads to the cluster role, and the hub's pods run under the service account, just if
-- the resource does not rename them.
pub record RefersToApplied (cr : Kubeshark) (labels : StringMap) (b : ClusterRoleBinding)
    (annotations : StringMap) : Type 0 where
  pub role :
      (b.role_ref.name ≡ (cluster_role_object labels).meta.name)
      ↔ IsUnset cr.spec.cluster_role_name "kubeshark-cluster-role"
  pub account :
      ((hub_template cr labels annotations).spec.service_account_name
        ≡ (service_account_object cr labels).meta.name)
      ↔ IsUnset cr.spec.service_account_hub "kubeshark-service-account"

get_or_default_string-eq_default :
    (value default_value : String)
    → (get_or_default_string value default_value ≡ default_value) ↔ IsUnset value default_value
unfolding get_or_default_string
get_or_default_string-eq_default value default_value = ground (arith, eq_iff value "")

module _ (cr : Kubeshark) (labels annotations : StringMap) (old b : ClusterRoleBinding) where
  -- For the ClusterRoleBinding that the earlier code submits, the ClusterRole and ServiceAccount
  -- that it applies, and the hub's pods: the binding's role reference is the role's name just if
  -- the resource leaves spec.clusterRoleName empty or at the default, and the pods' account is the
  -- applied one just if it leaves spec.serviceAccountHub so.
  pub mutate_cluster_role_binding-RefersToApplied :
      mutate_cluster_role_binding cr old ≡ ok b → RefersToApplied cr labels b annotations
  unfolding mutate_cluster_role_binding dynamic_role_ref cluster_role_object hub_template
      service_account_object
  mutate_cluster_role_binding-RefersToApplied h =
      let role : b.role_ref ≡ dynamic_role_ref cr = cc h in
      record {
        role =
            rw role
              (get_or_default_string-eq_default cr.spec.cluster_role_name "kubeshark-cluster-role");
        account =
            get_or_default_string-eq_default cr.spec.service_account_hub
              "kubeshark-service-account";
      }
