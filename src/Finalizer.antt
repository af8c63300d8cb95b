-- ===== src/Finalizer.antt =====
-- internal/controller/finalizer.go: `reconcileDelete`.
pub mod Correct
use kubeshark_operator.Common.{List, [], ◌∷◌, Result, ok, err, if◌then◌else◌}
use kubeshark_operator.Common.Exec.{Exec, pure, ◌>>◌}
use kubeshark_operator.Kube.Object.{Ref, cluster_role, cluster_role_binding}
use kubeshark_operator.Api.{Kubeshark}
use kubeshark_operator.Names.{finalizer_name, cluster_role_name, cluster_role_binding_name}
use kubeshark_operator.Runtime.{Runtime}

-- `client.IgnoreNotFound(err)`, and the test `err != nil && !errors.IsNotFound(err)`
abbrev pub ignore_not_found : Result (Unit {0}) → Result (Unit {0})
ignore_not_found (ok _) = ok tt
ignore_not_found (err e) = if e.is_not_found then ok tt else err e

abbrev pub role_ref : Kubeshark → Ref
role_ref cr = record { kind = cluster_role; namespace = ""; name = cluster_role_name cr }

abbrev pub binding_ref : Kubeshark → Ref
binding_ref cr = record {
  kind = cluster_role_binding;
  namespace = "";
  name = cluster_role_binding_name cr;
}

unfoldable pub cluster_objects : Kubeshark → List Ref
cluster_objects cr = role_ref cr ∷ binding_ref cr ∷ []

module _ (R : Runtime) where
  unfoldable pub delete_present : Ref → Exec R.World (Unit {0})
  delete_present r w = let (res, w') = R.delete r w in (ignore_not_found res, w')

  -- The loop over `clusterObjects`.
  unfoldable pub delete_all : List Ref → Exec R.World (Unit {0})
  unfolding delete_present
  delete_all [] = pure tt
  delete_all (r ∷ refs) = do delete_present r; delete_all refs

  abbrev pub without_finalizer : Kubeshark → Kubeshark
  without_finalizer cr = record cr {
    meta = record cr.meta { finalizers = R.remove_finalizer cr.meta.finalizers finalizer_name };
  }

  -- The last two lines, after the loop. The caller sees the resource that they changed.
  abbrev pub release :
      Kubeshark → Result (Unit {0}) → R.World → Result (Unit {0}) × Kubeshark × R.World
  release cr (err e) w = (err e, cr, w)
  release cr (ok _) w =
      let (res, w') = R.update (without_finalizer cr) w in (res, without_finalizer cr, w')

  unfoldable pub reconcile_delete : Kubeshark → R.World → Result (Unit {0}) × Kubeshark × R.World
  unfolding delete_all cluster_objects
  reconcile_delete cr w =
      let (res, w') = delete_all (cluster_objects cr) w in
      if R.contains_finalizer cr.meta.finalizers finalizer_name
      then release cr res w'
      else (ok tt, cr, w)
