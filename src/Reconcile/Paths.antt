-- ===== src/Reconcile/Paths.antt =====
-- Which way a call of Reconcile goes.
use kubeshark_operator.Common.{true, false, Option, none, some, ◌≡◌, ap, ◌∙◌, ok, ℕ}
use kubeshark_operator.Kube.Meta.{NamespacedName}
use kubeshark_operator.Api.{Kubeshark}
use kubeshark_operator.Names.{finalizer_name}
use kubeshark_operator.Runtime.{Runtime}
use kubeshark_operator.Runtime.Laws.{HasFrames}
use kubeshark_operator.Reconcile.{
  by_timestamp, steps, finish_delete, with_finalizer, reconcile_live, reconcile_found, reconcile,
}
use kubeshark_operator.Reconcile.Loop.{sequence, report, run_steps_lem}

-- The request names a resource that is not being deleted and holds the finalizer.
pub record IsActive (R : Runtime) (req : NamespacedName) (w : R.World) (cr : Kubeshark)
    : Type 0 where
  pub got : (R.get req w).0 ≡ ok cr
  pub live : cr.meta.deletion_timestamp ≡ none
  pub held : R.contains_finalizer cr.meta.finalizers finalizer_name ≡ true

module _ (R : Runtime) (F : HasFrames R) (req : NamespacedName) (w : R.World) (cr : Kubeshark) where
  pub reconcile-eq-found : (R.get req w).0 ≡ ok cr → reconcile R req w ≡ reconcile_found R cr w
  unfolding reconcile
  reconcile-eq-found got = rw (got, F.get req w)

  reconcile-eq-at :
      (R.get req w).0 ≡ ok cr
      → (t : Option ℕ) → cr.meta.deletion_timestamp ≡ t
      → reconcile R req w ≡ by_timestamp R t cr w
  unfolding reconcile_found
  reconcile-eq-at got t h = reconcile-eq-found got ∙ ap (λ u. by_timestamp R u cr w) h

  -- A resource that is being deleted.
  pub reconcile-eq-delete :
      (R.get req w).0 ≡ ok cr
      → (t : ℕ) → cr.meta.deletion_timestamp ≡ some t
      → reconcile R req w ≡ finish_delete R cr w
  reconcile-eq-delete got t h = reconcile-eq-at got (some t) h

  -- A live resource without the finalizer.
  pub reconcile-eq-add :
      (R.get req w).0 ≡ ok cr
      → cr.meta.deletion_timestamp ≡ none
      → R.contains_finalizer cr.meta.finalizers finalizer_name ≡ false
      → reconcile R req w ≡ R.update (with_finalizer R cr) w
  unfolding reconcile_live
  reconcile-eq-add got live absent = reconcile-eq-at got none live ∙ rw absent

  -- An active resource goes through the steps.
  pub reconcile-eq-report :
      IsActive R req w cr
      → reconcile R req w ≡ report R cr (sequence R (steps R cr) w).0 (sequence R (steps R cr) w).1
  unfolding reconcile_live
  reconcile-eq-report a =
      reconcile-eq-at a.got none a.live ∙ (rw (a.held) (run_steps_lem R cr (steps R cr) w))
