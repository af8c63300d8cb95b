-- ===== src/Reconcile/Guard.antt =====
-- The finalizer guards the cluster-scoped objects: the resource is let go of only when they are
-- gone.
use kubeshark_operator.Common.{
  ℕ, String, Bool, true, false, Option, none, some, List, ◌≡◌, ◌∙◌, ◌⊎◌, refl, ap, Result, ok, err,
  inl, inr, Bool-cases,
}
use kubeshark_operator.Kube.Meta.{NamespacedName}
use kubeshark_operator.Kube.Object.{Ref}
use kubeshark_operator.Api.{Kubeshark, key_of}
use kubeshark_operator.Names.{finalizer_name}
use kubeshark_operator.Runtime.{Runtime}
use kubeshark_operator.Runtime.Laws.{IsLawful, finalizers_of}
use kubeshark_operator.Status.Correct.{stored-set_ready_condition, finalizers-set_ready_condition}
use kubeshark_operator.Finalizer.{
  role_ref, binding_ref, release, without_finalizer, reconcile_delete,
}
use kubeshark_operator.Finalizer.Correct.{
  IsCleared, cluster_objects-Within, cluster_objects-IsCleared,
}
use kubeshark_operator.Reconcile.{
  by_timestamp, fail_with, finish_delete, reconcile, reconcile_found, reconcile_live, steps,
  with_finalizer,
}
use kubeshark_operator.Reconcile.Loop.{report, run_steps_lem}
use kubeshark_operator.Reconcile.Paths.{reconcile-eq-found}
use kubeshark_operator.Reconcile.Wanted.{steps-Within}

abbrev pub contains_ours : Runtime → Option (List String) → Bool
contains_ours R none = false
contains_ours R (some fs) = R.contains_finalizer fs finalizer_name

-- Does the stored resource hold the operator's finalizer?
abbrev pub is_held : (R : Runtime) → R.World → NamespacedName → Bool
is_held R w key = contains_ours R (finalizers_of (R.kubeshark w key))

-- The stored resource holds the finalizer, or no cluster-scoped object of it is left.
abbrev pub IsGuarded : (R : Runtime) → Kubeshark → R.World → Type 0
IsGuarded R cr w = (is_held R w (key_of cr) ≡ true) ⊎ IsCleared R w cr

module _ (R : Runtime) (L : IsLawful R) (cr : Kubeshark) where
  IsCleared-of_stored :
      (w v : R.World)
      → ((r : Ref) → R.stored v r ≡ R.stored w r)
      → IsCleared R w cr
      → IsCleared R v cr
  IsCleared-of_stored w v same h = record {
    role = same (role_ref cr) ∙ h.role;
    binding = same (binding_ref cr) ∙ h.binding;
  }

  stored-fail_with :
      (c : Kubeshark) (reason : String) (res : Result (Unit {0})) (w : R.World) (r : Ref)
      → R.stored (fail_with R c reason res w).1 r ≡ R.stored w r
  stored-fail_with c reason (ok _) w r = refl
  stored-fail_with c reason (err e) w r =
      stored-set_ready_condition R c false reason e.text L.frames w r

  finalizers-report :
      (res : Result (Unit {0})) (w : R.World)
      → finalizers_of (R.kubeshark (report R cr res w).1 (key_of cr))
        ≡ finalizers_of (R.kubeshark w (key_of cr))
  finalizers-report (ok _) w = finalizers-set_ready_condition R cr true _ _ L.effects w
  finalizers-report (err e) w = finalizers-set_ready_condition R cr false _ _ L.effects w

  -- What leaves the stored finalizers alone leaves a held resource held.
  still_held :
      (w v : R.World)
      → finalizers_of (R.kubeshark v (key_of cr)) ≡ finalizers_of (R.kubeshark w (key_of cr))
      → R.kubeshark w (key_of cr) ≡ some cr
      → R.contains_finalizer cr.meta.finalizers finalizer_name ≡ true
      → is_held R v (key_of cr) ≡ true
  still_held w v same there held = ap (contains_ours R) (same ∙ ap finalizers_of there) ∙ held

  live-IsGuarded :
      (w : R.World)
      → R.kubeshark w (key_of cr) ≡ some cr
      → IsGuarded R cr w
      → IsGuarded R cr (reconcile_live R cr w).1
  unfolding reconcile_live
  live-IsGuarded w there g =
      elim (Bool-cases (R.contains_finalizer cr.meta.finalizers finalizer_name)) [
        | inl held ↦
            rw (held, run_steps_lem R cr (steps R cr) w)
              (inl (
                still_held w _
                  (finalizers-report _ _
                    ∙ ap finalizers_of ((steps-Within R L cr).kubeshark w (key_of cr)))
                  there held))
        | inr absent ↦ rw absent (
            inr (
              IsCleared-of_stored w _ (L.frames.update_stored (with_finalizer R cr) w)
                (cleared_of_absent absent g)))
      ]
    where
      cleared_of_absent :
          R.contains_finalizer cr.meta.finalizers finalizer_name ≡ false
          → IsGuarded R cr w
          → IsCleared R w cr
      cleared_of_absent absent (inl held) = cc (rw there at held, absent)
      cleared_of_absent absent (inr h) = h

  release-IsGuarded :
      (w : R.World) (res : Result (Unit {0}))
      → R.kubeshark w (key_of cr) ≡ some cr
      → R.contains_finalizer cr.meta.finalizers finalizer_name ≡ true
      → (res ≡ ok tt → IsCleared R w cr)
      → let (out, c, v) = release R cr res w in
        IsGuarded R cr (fail_with R c "DeleteFailed" out v).1
  release-IsGuarded w (err e) there held cleared =
      inl (still_held w _ (finalizers-set_ready_condition R cr false _ _ L.effects w) there held)
  release-IsGuarded w (ok _) there held cleared = inr (
      IsCleared-of_stored w _
        (λ r. stored-fail_with (without_finalizer R cr) _ _ _ r ∙ L.frames.update_stored _ w r)
        (cleared refl))

  delete-IsGuarded :
      (w : R.World)
      → R.kubeshark w (key_of cr) ≡ some cr
      → IsGuarded R cr w
      → IsGuarded R cr (finish_delete R cr w).1
  unfolding finish_delete reconcile_delete
  delete-IsGuarded w there g =
      elim (Bool-cases (R.contains_finalizer cr.meta.finalizers finalizer_name)) [
        | inl held ↦ rw held (
            release-IsGuarded _ _ ((cluster_objects-Within R L cr).kubeshark w (key_of cr) ∙ there)
              held (cluster_objects-IsCleared R L cr w))
        | inr absent ↦ rw absent g
      ]

  by_timestamp-IsGuarded :
      (t : Option ℕ) (w : R.World)
      → R.kubeshark w (key_of cr) ≡ some cr
      → IsGuarded R cr w
      → IsGuarded R cr (by_timestamp R t cr w).1
  by_timestamp-IsGuarded none w there g = live-IsGuarded w there g
  by_timestamp-IsGuarded (some t) w there g = delete-IsGuarded w there g

module _ (R : Runtime) (L : IsLawful R) (req : NamespacedName) (w : R.World) (cr : Kubeshark) where
  -- For every runtime that behaves as documented: if the request names a resource, and that
  -- resource holds the finalizer in the store or has no cluster role and no binding there, then the
  -- same holds after Reconcile, whichever way it goes and whether it returns or fails.
  pub reconcile-IsGuarded :
      (R.get req w).0 ≡ ok cr → IsGuarded R cr w → IsGuarded R cr (reconcile R req w).1
  unfolding reconcile_found
  reconcile-IsGuarded got g =
      let (there, key) = L.effects.get req w cr got in
      rw (reconcile-eq-found R L.frames req w cr got) (
        by_timestamp-IsGuarded R L cr cr.meta.deletion_timestamp w (ap (R.kubeshark w) key ∙ there)
          g)
