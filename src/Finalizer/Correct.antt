-- ===== src/Finalizer/Correct.antt =====
-- `reconcileDelete` does not let go of a resource before its cluster-scoped objects are gone.
use kubeshark_operator.Common.{none, [], ◌∷◌, ◌≡◌, ◌∙◌, refl, Result, ok, err, arith}
use kubeshark_operator.Common.Exec.{pure, ◌>>◌, >>-ok}
use kubeshark_operator.Kube.Object.{Ref, same_ref}
use kubeshark_operator.Api.{Kubeshark}
use kubeshark_operator.Runtime.{Runtime}
use kubeshark_operator.Runtime.Laws.{IsLawful}
use kubeshark_operator.Runtime.Footprint.{Within, Within-seq, Within-pure, Within-delete}
use kubeshark_operator.Finalizer.{
  ignore_not_found, role_ref, binding_ref, cluster_objects, delete_present, delete_all,
}

-- Neither cluster-scoped object of the resource is stored.
pub record IsCleared (R : Runtime) (w : R.World) (cr : Kubeshark) : Type 0 where
  pub role : R.stored w (role_ref cr) ≡ none
  pub binding : R.stored w (binding_ref cr) ≡ none

module _ (R : Runtime) (L : IsLawful R) where
  pub delete_present-Within : (r : Ref) → Within R (r ∷ []) (delete_present R r)
  unfolding delete_present
  delete_present-Within r = record {
    stored = (Within-delete R L.frames r).stored;
    kubeshark = (Within-delete R L.frames r).kubeshark;
  }

  gone_of_result :
      (r : Ref) (w : R.World) (res : Result (Unit {0}))
      → (R.delete r w).0 ≡ res
      → ignore_not_found res ≡ ok tt
      → R.stored (R.delete r w).1 r ≡ none
  gone_of_result r w (ok tt) e h = L.effects.delete r w e
  gone_of_result r w (err x) e h = L.effects.delete_absent r w x e (ground arith)

  -- A deletion that is not an error has left nothing under that name.
  pub delete_present-gone :
      (r : Ref) (w : R.World)
      → (delete_present R r w).0 ≡ ok tt
      → R.stored (delete_present R r w).1 r ≡ none
  unfolding delete_present
  delete_present-gone r w h = gone_of_result r w (R.delete r w).0 refl h

  pub cluster_objects-Within :
      (cr : Kubeshark)
      → Within R (role_ref cr ∷ binding_ref cr ∷ []) (delete_all R (cluster_objects cr))
  unfolding delete_all cluster_objects
  cluster_objects-Within cr =
      Within-seq R (role_ref cr ∷ []) (binding_ref cr ∷ []) _ _
        (delete_present-Within (role_ref cr))
        (Within-seq R (binding_ref cr ∷ []) [] _ _ (delete_present-Within (binding_ref cr))
          (Within-pure R [] tt))

  pub cluster_objects-IsCleared :
      (cr : Kubeshark) (w : R.World)
      → (delete_all R (cluster_objects cr) w).0 ≡ ok tt
      → IsCleared R (delete_all R (cluster_objects cr) w).1 cr
  unfolding delete_all cluster_objects same_ref pure
  cluster_objects-IsCleared cr w h =
      let first = delete_present R (role_ref cr) in
      let second = delete_present R (binding_ref cr) in
      let (_, one, rest, same) = >>-ok first (second >> pure tt) w h in
      let (_, two, _, same') = >>-ok second (pure tt) (first w).1 rest in
      rw (same, same')
        (record {
          role =
              (delete_present-Within (binding_ref cr)).stored (first w).1 (role_ref cr) refl
              ∙ delete_present-gone (role_ref cr) w (cc one);
          binding = delete_present-gone (binding_ref cr) (first w).1 (cc two);
        })
