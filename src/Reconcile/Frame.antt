-- ===== src/Reconcile/Frame.antt =====
-- What a call of Reconcile leaves alone, on every path.
use kubeshark_operator.Common.{
  ℕ, Bool, true, false, Option, none, some, [], ◌∷◌, ◌≡◌, ◌∙◌, refl, ap, Result, ok, err, inl, inr,
  Bool-cases, every-append, and-eq-true, not, String,
}
use kubeshark_operator.Kube.Meta.{NamespacedName}
use kubeshark_operator.Kube.Object.{Ref, same_ref}
use kubeshark_operator.Api.{Kubeshark, key_of}
use kubeshark_operator.Names.{finalizer_name, component_labels}
use kubeshark_operator.Runtime.{Runtime}
use kubeshark_operator.Runtime.Laws.{IsLawful, same_key}
use kubeshark_operator.Runtime.Wants.{refs}
use kubeshark_operator.Runtime.Footprint.{outside}
use kubeshark_operator.Status.{set_ready_condition}
use kubeshark_operator.Status.Correct.{stored-set_ready_condition, kubeshark-set_ready_condition}
use kubeshark_operator.Finalizer.{
  role_ref, binding_ref, cluster_objects, delete_all, release, reconcile_delete,
}
use kubeshark_operator.Finalizer.Correct.{cluster_objects-Within}
use kubeshark_operator.Hub.Desired.{hub_wants}
use kubeshark_operator.Rbac.Correct.{worker_account_want, rbac_wants}
use kubeshark_operator.Reconcile.{
  steps, fail_with, finish_delete, with_finalizer, reconcile_live, by_timestamp, reconcile_found,
  reconcile,
}
use kubeshark_operator.Reconcile.Loop.{sequence, report, run_steps_lem}
use kubeshark_operator.Reconcile.Paths.{reconcile-eq-found}
use kubeshark_operator.Reconcile.Wanted.{last_wants, later_wants, wants, steps-Within}

-- The world `v` has the objects of `w` outside the list, and the other resources of `w`.
pub record Spares (R : Runtime) (cr : Kubeshark) (w v : R.World) : Type 0 where
  pub stored : (r : Ref) → outside (refs (wants cr)) r ≡ true → R.stored v r ≡ R.stored w r
  pub kubeshark :
      (key : NamespacedName)
      → same_key (key_of cr) key ≡ false
      → R.kubeshark v key ≡ R.kubeshark w key

outside-cluster_objects :
    (cr : Kubeshark) (r : Ref)
    → outside (refs (wants cr)) r ≡ true
    → outside (role_ref cr ∷ binding_ref cr ∷ []) r ≡ true
outside-cluster_objects cr r out =
    let labels = component_labels cr in
    let other = λ (a : Ref). not (same_ref a r) in
    let (_, later) = every-append other (refs (hub_wants cr labels)) (refs (later_wants cr)) out in
    let (rbac, _) = every-append other (refs (rbac_wants cr labels)) (refs (last_wants cr)) later in
    (and-eq-true (other (worker_account_want cr labels).ref) _ rbac).1

module _ (R : Runtime) (L : IsLawful R) (cr : Kubeshark) where
  Spares-trans : (u v w : R.World) → Spares R cr u v → Spares R cr v w → Spares R cr u w
  Spares-trans u v w a b = record {
    stored = λ r out. b.stored r out ∙ a.stored r out;
    kubeshark = λ key other. b.kubeshark key other ∙ a.kubeshark key other;
  }

  Spares-status :
      (c : Kubeshark) (ready : Bool) (reason message : String) (w : R.World)
      → key_of c ≡ key_of cr
      → Spares R cr w (set_ready_condition R c ready reason message w).1
  Spares-status c ready reason message w same = record {
    stored = λ r out. stored-set_ready_condition R c ready reason message L.frames w r;
    kubeshark = λ key other.
        kubeshark-set_ready_condition R c ready reason message L.frames w key
          (ap (λ k. same_key k key) same ∙ other);
  }

  Spares-fail_with :
      (c : Kubeshark) (reason : String) (res : Result (Unit {0})) (w : R.World)
      → key_of c ≡ key_of cr
      → Spares R cr w (fail_with R c reason res w).1
  Spares-fail_with c reason (ok _) w same = record {
    stored = λ r out. refl;
    kubeshark = λ key other. refl;
  }
  Spares-fail_with c reason (err e) w same = Spares-status c false reason e.text w same

  Spares-report : (res : Result (Unit {0})) (w : R.World) → Spares R cr w (report R cr res w).1
  Spares-report (ok _) w = Spares-status cr true _ _ w refl
  Spares-report (err e) w = Spares-status cr false _ _ w refl

  Spares-update :
      (c : Kubeshark) (w : R.World) → key_of c ≡ key_of cr → Spares R cr w (R.update c w).1
  Spares-update c w same = record {
    stored = λ r out. L.frames.update_stored c w r;
    kubeshark = λ key other. L.frames.update_others c w key (ap (λ k. same_key k key) same ∙ other);
  }

  Spares-live : (w : R.World) → Spares R cr w (reconcile_live R cr w).1
  unfolding reconcile_live
  Spares-live w = elim (Bool-cases (R.contains_finalizer cr.meta.finalizers finalizer_name)) [
    | inl held ↦
        rw (held, run_steps_lem R cr (steps R cr) w)
          (Spares-trans w (sequence R (steps R cr) w).1 _
            (record {
              stored = λ r out. (steps-Within R L cr).stored w r out;
              kubeshark = λ key other. (steps-Within R L cr).kubeshark w key;
            })
            (Spares-report _ _))
    | inr absent ↦ rw absent (Spares-update (with_finalizer R cr) w refl)
  ]

  Spares-cluster_objects : (w : R.World) → Spares R cr w (delete_all R (cluster_objects cr) w).1
  Spares-cluster_objects w = record {
    stored = λ r out. (cluster_objects-Within R L cr).stored w r (outside-cluster_objects cr r out);
    kubeshark = λ key other. (cluster_objects-Within R L cr).kubeshark w key;
  }

  Spares-release :
      (res : Result (Unit {0})) (w : R.World)
      → let (out, c, v) = release R cr res w in Spares R cr w (fail_with R c "DeleteFailed" out v).1
  Spares-release (err e) w = Spares-fail_with cr _ (err e) w refl
  Spares-release (ok _) w =
      Spares-trans w _ _ (Spares-update _ w refl) (Spares-fail_with _ _ _ _ refl)

  Spares-delete : (w : R.World) → Spares R cr w (finish_delete R cr w).1
  unfolding finish_delete reconcile_delete
  Spares-delete w = elim (Bool-cases (R.contains_finalizer cr.meta.finalizers finalizer_name)) [
    | inl held ↦ rw held (
        Spares-trans w (delete_all R (cluster_objects cr) w).1 _ (Spares-cluster_objects w)
          (Spares-release (delete_all R (cluster_objects cr) w).0 _))
    | inr absent ↦ rw absent (Spares-fail_with cr "DeleteFailed" (ok tt) w refl)
  ]

  Spares-by_timestamp : (t : Option ℕ) (w : R.World) → Spares R cr w (by_timestamp R t cr w).1
  Spares-by_timestamp none w = Spares-live w
  Spares-by_timestamp (some t) w = Spares-delete w

module _ (R : Runtime) (L : IsLawful R) (req : NamespacedName) (w : R.World) (cr : Kubeshark) where
  -- For every runtime that behaves as documented: if the request names a resource, then Reconcile,
  -- whichever way it goes and whether it returns or fails, writes and deletes no object but the
  -- twelve that the resource asks for, and changes no other resource of the operator.
  pub reconcile-Spares : (R.get req w).0 ≡ ok cr → Spares R cr w (reconcile R req w).1
  unfolding reconcile_found
  reconcile-Spares got =
      rw (reconcile-eq-found R L.frames req w cr got)
        (Spares-by_timestamp R L cr cr.meta.deletion_timestamp w)
