-- ===== src/Reconcile/Success.antt =====
-- What holds after a call of Reconcile that returned no error for an active resource.
use kubeshark_operator.Common.{true, ◌≡◌, ◌∙◌, refl, ap, sym, Result, ok, err}
use kubeshark_operator.Kube.Meta.{NamespacedName, condition_true}
use kubeshark_operator.Api.{Kubeshark, key_of}
use kubeshark_operator.Runtime.{Runtime}
use kubeshark_operator.Runtime.Laws.{IsLawful}
use kubeshark_operator.Runtime.Wants.{AllPresent, AllPresent-of_stored}
use kubeshark_operator.Status.{set_ready_condition}
use kubeshark_operator.Status.Correct.{Shows, stored-set_ready_condition, set_ready_condition-Shows}
use kubeshark_operator.Reconcile.Specified.Objects.{specified}
use kubeshark_operator.Reconcile.Specified.Correct.{AllPresent-specified}
use kubeshark_operator.Reconcile.{steps, reconcile}
use kubeshark_operator.Reconcile.Loop.{sequence, report}
use kubeshark_operator.Reconcile.Paths.{IsActive, reconcile-eq-report}
use kubeshark_operator.Reconcile.Wanted.{wants, HasOwnNames, steps-Within, steps-Implements}

module _ (R : Runtime) (cr : Kubeshark) where
  report-ok : (res : Result (Unit {0})) (w : R.World) → (report R cr res w).0 ≡ ok tt → res ≡ ok tt
  report-ok (ok tt) w h = refl
  report-ok (err e) w h = cc

  -- A call that returned no error has run all steps, and has then reported so.
  steps-ok :
      (req : NamespacedName) (w : R.World)
      → reconcile R req w ≡ report R cr (sequence R (steps R cr) w).0 (sequence R (steps R cr) w).1
      → (reconcile R req w).0 ≡ ok tt
      → ((sequence R (steps R cr) w).0 ≡ ok tt)
        × (reconcile R req w
            ≡ set_ready_condition R cr true "Reconciled" "All components reconciled"
                (sequence R (steps R cr) w).1)
  steps-ok req w path done =
      let ran = report-ok _ (sequence R (steps R cr) w).1 (sym (ap (λ r. r.0) path) ∙ done) in
      (ran, path ∙ ap (λ res. report R cr res (sequence R (steps R cr) w).1) ran)

module _ (R : Runtime) (L : IsLawful R) (req : NamespacedName) (w : R.World) (cr : Kubeshark) where
  -- In the words of the operator's definitions.
  pub reconcile-AllWanted :
      IsActive R req w cr
      → HasOwnNames cr
      → (reconcile R req w).0 ≡ ok tt
      → AllPresent R (reconcile R req w).1 (wants cr)
  reconcile-AllWanted active own done =
      let (ran, path) = steps-ok R cr req w (reconcile-eq-report R L.frames req w cr active) done in
      rw path (
        AllPresent-of_stored R _ _ (wants cr) (stored-set_ready_condition R cr _ _ _ L.frames _)
          ((steps-Implements R L cr own).establishes w ran))

  -- For every runtime that behaves as documented: if the request names an active resource whose
  -- hub and frontend have different Deployment and Service names, and Reconcile returns no error,
  -- then each of the twelve objects that are specified for the resource, names, labels, images,
  -- ports, environments, accounts, rules and settings included, is stored as the server realised a
  -- submission that is as specified.
  pub reconcile-AllPresent :
      IsActive R req w cr
      → HasOwnNames cr
      → (reconcile R req w).0 ≡ ok tt
      → AllPresent R (reconcile R req w).1 (specified cr)
  reconcile-AllPresent active own done =
      AllPresent-specified R (reconcile R req w).1 cr (reconcile-AllWanted active own done)

  -- For every runtime that behaves as documented: if the request names an active resource and
  -- Reconcile returns no error, then the stored resource has a Ready condition that is true, with
  -- the reason Reconciled, the message "All components reconciled" and the generation that was
  -- read, which is its observed generation too. Its conditions of other types are as they were.
  pub reconcile-Shows :
      IsActive R req w cr
      → (reconcile R req w).0 ≡ ok tt
      → Shows R (reconcile R req w).1 cr condition_true "Reconciled" "All components reconciled"
  reconcile-Shows active done =
      let (ran, path) = steps-ok R cr req w (reconcile-eq-report R L.frames req w cr active) done in
      let (there, key) = L.effects.get req w cr active.got in
      rw path (
        set_ready_condition-Shows R cr true _ _ L _ cr
          ((steps-Within R L cr).kubeshark w (key_of cr) ∙ rw key there) refl
          (sym (ap (λ r. r.0) path) ∙ done))
