-- ===== src/Reconcile/Failure.antt =====
-- What holds after a call of Reconcile in which a step failed.
use kubeshark_operator.Common.{
  String, false, List, [], ◌∷◌, ◌++◌, ◌≡◌, ◌∙◌, refl, sym, ap, Error, ok, err,
}
use kubeshark_operator.Common.Exec.{Exec, pure, ◌>>=◌, >>-ok}
use kubeshark_operator.Kube.Meta.{NamespacedName, condition_false}
use kubeshark_operator.Api.{Kubeshark, key_of}
use kubeshark_operator.Runtime.{Runtime}
use kubeshark_operator.Runtime.Laws.{IsLawful}
use kubeshark_operator.Status.{set_ready_condition}
use kubeshark_operator.Status.Correct.{Shows, set_ready_condition-Shows}
use kubeshark_operator.Reconcile.{Step, steps, reconcile}
use kubeshark_operator.Reconcile.Loop.{sequence, report}
use kubeshark_operator.Reconcile.Paths.{IsActive, reconcile-eq-report}
use kubeshark_operator.Reconcile.Wanted.{steps-Within}

module _ (R : Runtime) where
  -- A failing step ends the sequence.
  sequence-failure :
      (before after : List (Step R)) (name : String) (fn : Exec R.World (Unit {0})) (w : R.World)
      (e : Error)
      → (sequence R before w).0 ≡ ok tt
      → (fn (sequence R before w).1).0 ≡ err e
      → sequence R (before ++ (name, fn) ∷ after) w ≡ (err e, (fn (sequence R before w).1).1)
  unfolding sequence pure ◌>>=◌
  sequence-failure [] after name fn w e ran failed = rw failed
  sequence-failure ((_, g) ∷ before) after name fn w e ran failed =
      let (_, first, rest, same) = >>-ok g (sequence R before) w ran in
      rw first (
        sequence-failure before after name fn (g w).1 e rest
          (sym (ap (λ r. (fn r.1).0) same) ∙ failed))

module _ (R : Runtime) (L : IsLawful R) (req : NamespacedName) (w : R.World) (cr : Kubeshark) where
  -- For every runtime that behaves as documented: if the request names an active resource, the
  -- steps before one of them return no error, and that step fails, then Reconcile returns that
  -- step's error, and its state is that in which the step left the cluster, but for the report in
  -- the status. The steps that come after it play no part.
  pub reconcile-first_failure :
      (before after : List (Step R)) (name : String) (fn : Exec R.World (Unit {0})) (e : Error)
      → IsActive R req w cr
      → steps R cr ≡ before ++ (name, fn) ∷ after
      → (sequence R before w).0 ≡ ok tt
      → (fn (sequence R before w).1).0 ≡ err e
      → reconcile R req w ≡ (
        err e,
        (set_ready_condition R cr false "ReconcileError" e.text (fn (sequence R before w).1).1).1,
      )
  reconcile-first_failure before after name fn e active split ran failed =
      reconcile-eq-report R L.frames req w cr active
      ∙ ap (λ r. report R cr r.0 r.1)
          (ap (λ ss. sequence R ss w) split
            ∙ sequence-failure R before after name fn w e ran failed)

  -- For every runtime that behaves as documented: if the request names an active resource and its
  -- steps end in an error, then Reconcile returns that error. If moreover the status could be
  -- written, then the stored resource has a Ready condition that is false, with the reason
  -- ReconcileError, the error's text, and the generation that was read, which becomes its observed
  -- generation although that generation was not reconciled.
  pub reconcile_failed-Shows :
      (e : Error)
      → IsActive R req w cr
      → (sequence R (steps R cr) w).0 ≡ err e
      → ((reconcile R req w).0 ≡ err e)
        × ((set_ready_condition R cr false "ReconcileError" e.text (sequence R (steps R cr) w).1).0
              ≡ ok tt
            → Shows R (reconcile R req w).1 cr condition_false "ReconcileError" e.text)
  reconcile_failed-Shows e active failed =
      let path =
        reconcile-eq-report R L.frames req w cr active
        ∙ ap (λ res. report R cr res (sequence R (steps R cr) w).1) failed in
      let (there, key) = L.effects.get req w cr active.got in
      (
        ap (λ r. r.0) path,
        λ written. rw path (
            set_ready_condition-Shows R cr false _ _ L _ cr
              ((steps-Within R L cr).kubeshark w (key_of cr) ∙ rw key there) refl written),
      )
