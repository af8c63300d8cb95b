-- ===== src/Reconcile/Sharing.antt =====
-- Resources of two namespaces can ask for the same cluster-scoped objects.
use kubeshark_operator.Common.{ℕ, ◌<>◌, true, some, ◌≡◌, ap, ok}
use kubeshark_operator.Kube.Meta.{NamespacedName}
use kubeshark_operator.Api.{Kubeshark}
use kubeshark_operator.Names.{finalizer_name, cluster_role_name, cluster_role_binding_name}
use kubeshark_operator.Kube.Object.{cluster_role, cluster_role_binding}
use kubeshark_operator.Runtime.{Runtime}
use kubeshark_operator.Runtime.Laws.{IsLawful}
use kubeshark_operator.Finalizer.Correct.{IsCleared}
use kubeshark_operator.Reconcile.{reconcile}
use kubeshark_operator.Reconcile.Deletion.{reconcile_deleted-IsCleared}

-- Namespace and name join to the same text, as those of `a-b` and `c`, and of `a` and `b-c`, do.
-- Neither resource sets the names of its cluster-scoped objects.
pub record IsAlike (x y : Kubeshark) : Type 0 where
  pub joined : (x.meta.namespace <> "-") <> x.meta.name ≡ (y.meta.namespace <> "-") <> y.meta.name
  pub x_role : x.spec.cluster_role_name ≡ ""
  pub y_role : y.spec.cluster_role_name ≡ ""
  pub x_binding : x.spec.cluster_role_binding_name ≡ ""
  pub y_binding : y.spec.cluster_role_binding_name ≡ ""

module _ (x y : Kubeshark) (h : IsAlike x y) where
  cluster_role_names-eq : cluster_role_name x ≡ cluster_role_name y
  unfolding cluster_role_name
  cluster_role_names-eq = simp (h.x_role, h.y_role) (ap (λ s. s <> "-kubeshark") h.joined)

  cluster_role_binding_names-eq : cluster_role_binding_name x ≡ cluster_role_binding_name y
  unfolding cluster_role_binding_name
  cluster_role_binding_names-eq =
      simp (h.x_binding, h.y_binding) (ap (λ s. s <> "-kubeshark") h.joined)

module _ (R : Runtime) (L : IsLawful R) (req : NamespacedName) (w : R.World) (x y : Kubeshark) where
  -- For every runtime that behaves as documented: if the request names a resource that is being
  -- deleted and holds the finalizer, and Reconcile returns no error, then another resource whose
  -- namespace and name join to the same text, and that like the first sets no names for its
  -- cluster-scoped objects, has no cluster role and no binding afterwards.
  pub reconcile_deleted-clears_alike :
      (t : ℕ)
      → (R.get req w).0 ≡ ok x
      → x.meta.deletion_timestamp ≡ some t
      → R.contains_finalizer x.meta.finalizers finalizer_name ≡ true
      → (reconcile R req w).0 ≡ ok tt
      → IsAlike x y
      → IsCleared R (reconcile R req w).1 y
  reconcile_deleted-clears_alike t got deleting held done alike =
      let (cleared, _) = reconcile_deleted-IsCleared R L req w x t got deleting held done in
      let v = (reconcile R req w).1 in
      record {
        role =
            rw
              (ap (λ n. R.stored v (record { kind = cluster_role; namespace = ""; name = n }))
                (cluster_role_names-eq x y alike))
              at cleared.role;
        binding =
            rw
              (ap
                (λ n. R.stored v (record { kind = cluster_role_binding; namespace = ""; name = n }))
                (cluster_role_binding_names-eq x y alike))
              at cleared.binding;
      }
