-- ===== src/Reconcile/Vanishing.antt =====
-- A call for a resource that is being deleted, on a server that answers.
use kubeshark_operator.Common.{
  ℕ, true, none, some, List, [], ◌∷◌, ◌≡◌, ◌∙◌, ◌⊎◌, inl, inr, refl, ap, Error, Result, ok, err,
}
use kubeshark_operator.Common.Exec.{pure, ◌>>=◌}
use kubeshark_operator.Kube.Meta.{NamespacedName}
use kubeshark_operator.Kube.Object.{Ref}
use kubeshark_operator.Api.{Kubeshark, key_of}
use kubeshark_operator.Names.{finalizer_name}
use kubeshark_operator.Runtime.{Runtime}
use kubeshark_operator.Runtime.Laws.{IsLawful}
use kubeshark_operator.Runtime.Available.{IsAvailable}
use kubeshark_operator.Finalizer.{
  ignore_not_found, cluster_objects, delete_present, delete_all, without_finalizer,
  reconcile_delete,
}
use kubeshark_operator.Finalizer.Correct.{IsCleared, cluster_objects-Within}
use kubeshark_operator.Reconcile.{reconcile, finish_delete}
use kubeshark_operator.Reconcile.Paths.{reconcile-eq-delete}
use kubeshark_operator.Reconcile.Deletion.{reconcile_deleted-IsCleared}

module _ (R : Runtime) (A : IsAvailable R) where
  ignored-ok :
      (res : Result (Unit {0}))
      → (res ≡ ok tt) ⊎ ((e : Error) × (res ≡ err e) × (e.is_not_found ≡ true))
      → ignore_not_found res ≡ ok tt
  ignored-ok res (inl done) = rw done
  ignored-ok res (inr (e, failed, absent)) = rw (failed, absent)

  delete_present-returns : (r : Ref) (w : R.World) → (delete_present R r w).0 ≡ ok tt
  unfolding delete_present
  delete_present-returns r w = ignored-ok (R.delete r w).0 (A.remove r w)

  delete_all-returns : (refs : List Ref) (w : R.World) → (delete_all R refs w).0 ≡ ok tt
  unfolding delete_all pure ◌>>=◌
  delete_all-returns [] w = refl
  delete_all-returns (r ∷ refs) w =
      rw (delete_present-returns r w) (delete_all-returns refs (delete_present R r w).1)

module _ (R : Runtime) (L : IsLawful R) (A : IsAvailable R) (req : NamespacedName) (w : R.World)
    (cr : Kubeshark) where
  -- For every runtime that behaves as documented and answers every read and write: if the request
  -- names a resource that is being deleted and whose one finalizer is the operator's, then
  -- Reconcile returns no error, and the resource, its cluster role and its binding are gone.
  pub reconcile_deleted-vanishes :
      (t : ℕ)
      → (R.get req w).0 ≡ ok cr
      → cr.meta.deletion_timestamp ≡ some t
      → R.contains_finalizer cr.meta.finalizers finalizer_name ≡ true
      → R.remove_finalizer cr.meta.finalizers finalizer_name ≡ []
      → ((reconcile R req w).0 ≡ ok tt)
        × (R.kubeshark (reconcile R req w).1 (key_of cr) ≡ none)
        × IsCleared R (reconcile R req w).1 cr
  unfolding finish_delete reconcile_delete
  reconcile_deleted-vanishes t got deleting held last =
      let v = (delete_all R (cluster_objects cr) w).1 in
      let (there, key) = L.effects.get req w cr got in
      let stored : R.kubeshark v (key_of cr) ≡ some cr =
        (cluster_objects-Within R L cr).kubeshark w (key_of cr)
        ∙ (ap (R.kubeshark w) key ∙ there) in
      let updated = A.write (without_finalizer R cr) cr v stored in
      let path : reconcile R req w ≡ (ok tt, (R.update (without_finalizer R cr) v).1) =
        reconcile-eq-delete R L.frames req w cr got t deleting
        ∙ rw (held, delete_all-returns R A (cluster_objects cr) w, updated) refl in
      let done : (reconcile R req w).0 ≡ ok tt = ap (λ r. r.0) path in
      (
        done,
        ap (λ r. R.kubeshark r.1 (key_of cr)) path
            ∙ L.effects.update_gone (without_finalizer R cr) v t updated deleting last,
        (reconcile_deleted-IsCleared R L req w cr t got deleting held done).0,
      )
