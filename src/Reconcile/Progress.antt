-- ===== src/Reconcile/Progress.antt =====
-- A call of Reconcile succeeds if the server accepts what it submits and no object of the resource
-- has another controller.
use kubeshark_operator.Common.{true, [], ◌≡◌, ◌≢◌, ◌∙◌, refl, arith, eq_iff, ok, All, every}
use kubeshark_operator.Common.Exec.{pure, wrap_error}
use kubeshark_operator.Kube.Meta.{NamespacedName}
use kubeshark_operator.Kube.Object.{same_ref}
use kubeshark_operator.Api.{Kubeshark, key_of}
use kubeshark_operator.Names.{
  component_labels, hub_service_account_name, worker_service_account_name, hub_deployment_name,
  hub_service_name, frontend_deployment_name, frontend_service_name,
}
use kubeshark_operator.Runtime.{Runtime}
use kubeshark_operator.Runtime.Laws.{IsLawful}
use kubeshark_operator.Runtime.Footprint.{outside, Within-pure}
use kubeshark_operator.Runtime.Wants.{refs}
use kubeshark_operator.Runtime.Available.{IsAvailable, MayApply, Progresses, Progresses-seq}
use kubeshark_operator.Hub.Desired.{hub_wants}
use kubeshark_operator.Status.{ready_status, set_ready_condition}
use kubeshark_operator.Reconcile.{steps, reconcile}
use kubeshark_operator.Reconcile.Loop.{sequence}
use kubeshark_operator.Reconcile.Paths.{IsActive, reconcile-eq-report}
use kubeshark_operator.Reconcile.Wanted.{later_wants, HasOwnNames, steps-Within}
use kubeshark_operator.Reconcile.Parts.{
  reconcile_hub-Goes, reconcile_rbac-Goes, reconcile_worker-Goes, reconcile_frontend-Goes,
  reconcile_secret-Goes, applications, hub_applications, rbac_applications, worker_applications,
  frontend_applications, secret_applications,
}

-- The hub's objects are not those of the later steps.
hub-outside :
    (cr : Kubeshark)
    → HasOwnNames cr
    → worker_service_account_name cr ≢ hub_service_account_name cr
    → every (outside (refs (hub_wants cr (component_labels cr)))) (refs (later_wants cr)) ≡ true
unfolding same_ref
hub-outside cr own accounts = ground (
  arith,
  accounts,
  own.deployments,
  own.services,
  eq_iff (hub_service_account_name cr) (worker_service_account_name cr),
  eq_iff (hub_deployment_name cr) (frontend_deployment_name cr),
  eq_iff (hub_service_name cr) (frontend_service_name cr),
)

module _ (R : Runtime) (L : IsLawful R) (A : IsAvailable R) (cr : Kubeshark) where
  -- All five steps together.
  steps-Progresses :
      HasOwnNames cr
      → worker_service_account_name cr ≢ hub_service_account_name cr
      → Progresses R A cr.meta (applications R cr) (sequence R (steps R cr))
  unfolding steps sequence same_ref pure
  steps-Progresses own accounts =
      Progresses-seq R A cr.meta _ _ (hub_applications R cr) _ (reconcile_hub-Goes R L A cr)
        (Progresses-seq R A cr.meta _ _ (rbac_applications R cr) _ (reconcile_rbac-Goes R L A cr)
          (Progresses-seq R A cr.meta _ _ (worker_applications R cr) _
            (reconcile_worker-Goes R L A cr)
            (Progresses-seq R A cr.meta _ _ (frontend_applications R cr) _
              (reconcile_frontend-Goes R L A cr)
              (Progresses-seq R A cr.meta _ _ (secret_applications R cr) []
                (reconcile_secret-Goes R L A cr)
                (record { within = Within-pure R [] tt; succeeds = λ w h. refl }) refl)
              refl)
            refl)
          refl)
        (hub-outside cr own accounts)

module _ (R : Runtime) (L : IsLawful R) (A : IsAvailable R) (req : NamespacedName) (w : R.World)
    (cr : Kubeshark) where
  -- For every runtime that behaves as documented and answers: if the request names an active
  -- resource whose hub and frontend have different Deployment and Service names and whose hub and
  -- worker have different service accounts, none of the twelve objects that is already stored has
  -- another controller, and the server accepts, for each of the twelve calls of CreateOrUpdate, what
  -- the mutate function makes of the object that is stored when the call of Reconcile begins, or of
  -- the one that the operator made where none is, then Reconcile returns no error.
  pub reconcile-returns :
      IsActive R req w cr
      → HasOwnNames cr
      → worker_service_account_name cr ≢ hub_service_account_name cr
      → All (MayApply R A w cr.meta) (applications R cr)
      → (reconcile R req w).0 ≡ ok tt
  unfolding set_ready_condition wrap_error
  reconcile-returns active own accounts may =
      let ran = (steps-Progresses R L A cr own accounts).succeeds w may in
      let v = (sequence R (steps R cr) w).1 in
      let (there, key) = L.effects.get req w cr active.got in
      let stored = (steps-Within R L cr).kubeshark w (key_of cr) ∙ rw key there in
      rw (reconcile-eq-report R L.frames req w cr active, ran)
        (rw (
          A.patch cr
            (record cr { status = ready_status R cr true "Reconciled" "All components reconciled" })
            cr v stored))
