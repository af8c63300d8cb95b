-- ===== src/Rbac/Correct.antt =====
-- What the worker's service account, the cluster role and its binding should be, and that
-- `reconcileRBAC` leaves them so.
use kubeshark_operator.Common.{◌≡◌, refl, subst, inl, List, [], ◌∷◌, ok}
use kubeshark_operator.Common.Maps.{StringMap}
use kubeshark_operator.Kube.Object.{service_account, cluster_role, cluster_role_binding, same_ref}
use kubeshark_operator.Kube.Access.{ServiceAccount, ClusterRole, ClusterRoleBinding}
use kubeshark_operator.Api.{Kubeshark}
use kubeshark_operator.Names.{
  worker_service_account_name, cluster_role_name, cluster_role_binding_name,
}
use kubeshark_operator.Runtime.{Runtime}
use kubeshark_operator.Runtime.Laws.{IsLawful}
use kubeshark_operator.Runtime.Owned.{IsChild, owned}
use kubeshark_operator.Runtime.Wants.{
  Want, Implements, Implements-seq, Implements-wrap_error, Implements-apply,
}
use kubeshark_operator.Rbac.Objects.{
  cluster_role_rules, binding_subjects, binding_role_ref, mutate_worker_service_account,
  mutate_cluster_role, mutate_cluster_role_binding,
}
use kubeshark_operator.Rbac.{
  reconcile_rbac, reconcile_worker_service_account, reconcile_cluster_role,
  reconcile_cluster_role_binding,
}

module _ (cr : Kubeshark) (labels : StringMap) where
  -- Cluster-scoped objects have no owner.
  pub record IsKubesharkRole (o : ClusterRole) : Type 0 where
    pub labelled : o.meta.labels ≡ labels
    pub rules : o.rules ≡ cluster_role_rules cr

  pub record IsKubesharkBinding (o : ClusterRoleBinding) : Type 0 where
    pub labelled : o.meta.labels ≡ labels
    pub role_ref : o.role_ref ≡ binding_role_ref cr
    pub subjects : o.subjects ≡ binding_subjects cr

  abbrev pub worker_account_want : Want
  worker_account_want = record {
    ref = record {
      kind = service_account;
      namespace = cr.meta.namespace;
      name = worker_service_account_name cr;
    };
    desired = λ o. IsChild cr labels o.meta;
  }

  abbrev pub rbac_wants : List Want
  rbac_wants =
      worker_account_want
      ∷ record {
        ref = record { kind = cluster_role; namespace = ""; name = cluster_role_name cr };
        desired = IsKubesharkRole;
      }
      ∷ record {
        ref = record {
          kind = cluster_role_binding;
          namespace = "";
          name = cluster_role_binding_name cr;
        };
        desired = IsKubesharkBinding;
      }
      ∷ []

module _ (R : Runtime) (L : IsLawful R) (cr : Kubeshark) (labels : StringMap) where
  mutate_worker_service_account-IsChild :
      (b s : ServiceAccount)
      → mutate_worker_service_account R cr labels b ≡ ok s
      → IsChild cr labels s.meta
  unfolding mutate_worker_service_account
  mutate_worker_service_account-IsChild b s h =
      let (m', made, child, _) = owned R L.utilities cr labels b.meta _ s h in
      subst (λ (o : ServiceAccount). IsChild cr labels o.meta) made child

  mutate_cluster_role-IsKubesharkRole :
      (b s : ClusterRole) → mutate_cluster_role cr labels b ≡ ok s → IsKubesharkRole cr labels s
  unfolding mutate_cluster_role
  mutate_cluster_role-IsKubesharkRole b s h = record { labelled = cc h; rules = cc h }

  mutate_cluster_role_binding-IsKubesharkBinding :
      (b s : ClusterRoleBinding)
      → mutate_cluster_role_binding cr labels b ≡ ok s
      → IsKubesharkBinding cr labels s
  unfolding mutate_cluster_role_binding
  mutate_cluster_role_binding-IsKubesharkBinding b s h = record {
    labelled = cc h;
    role_ref = cc h;
    subjects = cc h;
  }

  pub reconcile_rbac-Implements : Implements R (reconcile_rbac R cr labels) (rbac_wants cr labels)
  unfolding reconcile_rbac reconcile_worker_service_account reconcile_cluster_role
      reconcile_cluster_role_binding same_ref
  reconcile_rbac-Implements =
      Implements-seq R _ _ (_ ∷ []) _
        (Implements-apply R L.frames L.effects service_account _ _ _
          mutate_worker_service_account-IsChild)
        (Implements-seq R _ _ (_ ∷ []) _
          (Implements-wrap_error R _ _ _ (
            Implements-apply R L.frames L.effects cluster_role _ _ _
              mutate_cluster_role-IsKubesharkRole))
          (Implements-wrap_error R _ _ _ (
            Implements-apply R L.frames L.effects cluster_role_binding _ _ _
              mutate_cluster_role_binding-IsKubesharkBinding))
          (inl refl, tt))
        (inl refl, tt)
