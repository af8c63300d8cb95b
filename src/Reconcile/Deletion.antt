-- ===== src/Reconcile/Deletion.antt =====
-- What a successful call of Reconcile has done to a resource that is being deleted.
use kubeshark_operator.Common.{ℕ, true, false, some, ◌≡◌, ◌∙◌, refl, ap, sym, Result, ok, err}
use kubeshark_operator.Kube.Meta.{NamespacedName}
use kubeshark_operator.Api.{Kubeshark, key_of}
use kubeshark_operator.Names.{finalizer_name}
use kubeshark_operator.Runtime.{Runtime}
use kubeshark_operator.Runtime.Laws.{IsLawful}
use kubeshark_operator.Finalizer.{
  cluster_objects, role_ref, binding_ref, delete_all, release, without_finalizer, reconcile_delete,
}
use kubeshark_operator.Finalizer.Correct.{IsCleared, cluster_objects-IsCleared}
use kubeshark_operator.Reconcile.{fail_with, finish_delete, reconcile}
use kubeshark_operator.Reconcile.Paths.{reconcile-eq-delete}

module _ (R : Runtime) (cr : Kubeshark) where
  fail_with-ok :
      (c : Kubeshark) (res : Result (Unit {0})) (w : R.World)
      → (fail_with R c "DeleteFailed" res w).0 ≡ ok tt
      → (res ≡ ok tt) × (fail_with R c "DeleteFailed" res w ≡ (ok tt, w))
  fail_with-ok c (ok tt) w h = (refl, refl)
  fail_with-ok c (err e) w h = cc

  -- Success means that the deletions and the update succeeded, in this order.
  release-ok :
      (res : Result (Unit {0})) (w : R.World)
      → (let (out, c, v) = release R cr res w in (fail_with R c "DeleteFailed" out v).0 ≡ ok tt)
      → (res ≡ ok tt)
        × ((R.update (without_finalizer R cr) w).0 ≡ ok tt)
        × (let (out, c, v) = release R cr res w in
            fail_with R c "DeleteFailed" out v ≡ (ok tt, (R.update (without_finalizer R cr) w).1))
  release-ok (err e) w h = cc
  release-ok (ok tt) w h =
      let (updated, same) =
        fail_with-ok (without_finalizer R cr) _ (R.update (without_finalizer R cr) w).1 h in
      (refl, updated, same)

module _ (R : Runtime) (L : IsLawful R) (req : NamespacedName) (w : R.World) (cr : Kubeshark) where
  -- For every runtime that behaves as documented: if the request names a resource that is being
  -- deleted and holds the finalizer, and Reconcile returns no error, then neither its cluster role
  -- nor its binding is stored, and what is stored of the resource, if anything, no longer holds the
  -- finalizer.
  pub reconcile_deleted-IsCleared :
      (t : ℕ)
      → (R.get req w).0 ≡ ok cr
      → cr.meta.deletion_timestamp ≡ some t
      → R.contains_finalizer cr.meta.finalizers finalizer_name ≡ true
      → (reconcile R req w).0 ≡ ok tt
      → IsCleared R (reconcile R req w).1 cr
        × ((c : Kubeshark)
            → R.kubeshark (reconcile R req w).1 (key_of cr) ≡ some c
            → R.contains_finalizer c.meta.finalizers finalizer_name ≡ false)
  unfolding finish_delete reconcile_delete
  reconcile_deleted-IsCleared t got deleting held done =
      let path : reconcile R req w ≡ finish_delete R cr w =
        reconcile-eq-delete R L.frames req w cr got t deleting in
      let v = (delete_all R (cluster_objects cr) w).1 in
      let finished : (finish_delete R cr w).0 ≡ ok tt = sym (ap (λ r. r.0) path) ∙ done in
      let (deleted, updated, same) =
        release-ok R cr (delete_all R (cluster_objects cr) w).0 v (rw held at finished) in
      let end : reconcile R req w ≡ (ok tt, (R.update (without_finalizer R cr) v).1) =
        path ∙ rw held same in
      let cleared = cluster_objects-IsCleared R L cr w deleted in
      let same_stored = L.frames.update_stored (without_finalizer R cr) v in
      rw end (
        record {
          role = same_stored (role_ref cr) ∙ cleared.role;
          binding = same_stored (binding_ref cr) ∙ cleared.binding;
        },
        λ c there.
            rw (L.effects.update (without_finalizer R cr) v c updated there).finalizers
              (L.utilities.contains-remove cr.meta.finalizers finalizer_name),
      )
