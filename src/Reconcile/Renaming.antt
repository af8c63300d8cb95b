-- ===== src/Reconcile/Renaming.antt =====
-- A resource that is given another name for its cluster role leaves the old one behind.
use kubeshark_operator.Common.{ℕ, true, false, some, ◌≡◌, ◌≢◌, ◌∙◌, ok, arith, eq_iff}
use kubeshark_operator.Kube.Meta.{NamespacedName}
use kubeshark_operator.Kube.Object.{same_ref}
use kubeshark_operator.Kube.Access.{ClusterRole}
use kubeshark_operator.Api.{Kubeshark, key_of}
use kubeshark_operator.Names.{cluster_role_name, finalizer_name}
use kubeshark_operator.Runtime.{Runtime}
use kubeshark_operator.Runtime.Laws.{IsLawful}
use kubeshark_operator.Runtime.Wants.{refs}
use kubeshark_operator.Runtime.Footprint.{outside}
use kubeshark_operator.Finalizer.{role_ref}
use kubeshark_operator.Reconcile.{reconcile}
use kubeshark_operator.Reconcile.Wanted.{wants}
use kubeshark_operator.Reconcile.Frame.{reconcile-Spares}
use kubeshark_operator.Reconcile.Deletion.{reconcile_deleted-IsCleared}

old_role-outside :
    (old new : Kubeshark)
    → cluster_role_name new ≢ cluster_role_name old
    → outside (refs (wants new)) (role_ref old) ≡ true
unfolding same_ref
old_role-outside old new differ =
    ground (arith, eq_iff (cluster_role_name new) (cluster_role_name old))

module _ (R : Runtime) (L : IsLawful R) (req : NamespacedName) (w : R.World)
    (old new : Kubeshark) where
  -- For every runtime that behaves as documented: if the request names a resource that is being
  -- deleted and holds the finalizer, Reconcile returns no error, and a cluster role is stored whose
  -- name an earlier version of the resource asked for and the version that is read does not, then
  -- that cluster role is stored as it was, although what is stored of the resource, if anything, no
  -- longer holds the finalizer.
  pub reconcile_deleted-leaves_old_role :
      (t : ℕ) (o : ClusterRole)
      → (R.get req w).0 ≡ ok new
      → new.meta.deletion_timestamp ≡ some t
      → R.contains_finalizer new.meta.finalizers finalizer_name ≡ true
      → (reconcile R req w).0 ≡ ok tt
      → cluster_role_name new ≢ cluster_role_name old
      → R.stored w (role_ref old) ≡ some o
      → (R.stored (reconcile R req w).1 (role_ref old) ≡ some o)
        × ((c : Kubeshark)
            → R.kubeshark (reconcile R req w).1 (key_of new) ≡ some c
            → R.contains_finalizer c.meta.finalizers finalizer_name ≡ false)
  reconcile_deleted-leaves_old_role t o got deleting held done differ there =
      let spares = reconcile-Spares R L req w new got in
      let (_, released) = reconcile_deleted-IsCleared R L req w new t got deleting held done in
      (spares.stored (role_ref old) (old_role-outside old new differ) ∙ there, released)
