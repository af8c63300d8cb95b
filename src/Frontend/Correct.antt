-- ===== src/Frontend/Correct.antt =====
-- `reconcileFrontend` leaves the frontend's objects as they should be.
use kubeshark_operator.Common.{
  String, ◌≡◌, ◌≢◌, refl, subst, inl, Option, some, [], ◌∷◌, ok, arith, eq_iff,
}
use kubeshark_operator.Common.Maps.{StringMap}
use kubeshark_operator.Kube.Object.{deployment, service, ingress, same_ref}
use kubeshark_operator.Kube.Workload.{Deployment}
use kubeshark_operator.Kube.Network.{Service, Ingress}
use kubeshark_operator.Api.{Kubeshark}
use kubeshark_operator.Runtime.{Runtime}
use kubeshark_operator.Runtime.Laws.{IsLawful}
use kubeshark_operator.Runtime.Owned.{owned}
use kubeshark_operator.Runtime.Wants.{
  Implements, Implements-seq, Implements-wrap_error, Implements-apply,
}
use kubeshark_operator.Frontend.Objects.{
  class_or_keep, mutate_frontend_deployment, mutate_frontend_service, mutate_frontend_ingress,
}
use kubeshark_operator.Frontend.Desired.{
  IsFrontendDeployment, IsFrontendService, IsFrontendIngress, frontend_wants,
}
use kubeshark_operator.Frontend.{
  reconcile_frontend, reconcile_frontend_deployment, reconcile_frontend_service,
  reconcile_frontend_ingress,
}

class_or_keep_given :
    (class : String) (old : Option String) → class ≢ "" → class_or_keep class old ≡ some class
unfolding class_or_keep
class_or_keep_given class old given = ground (arith, eq_iff class "")

module _ (R : Runtime) (L : IsLawful R) (cr : Kubeshark) (labels : StringMap) where
  mutate_frontend_deployment-IsFrontendDeployment :
      (b s : Deployment)
      → mutate_frontend_deployment R cr labels b ≡ ok s
      → IsFrontendDeployment cr labels s
  unfolding mutate_frontend_deployment
  mutate_frontend_deployment-IsFrontendDeployment b s h =
      let (m', made, child, _) = owned R L.utilities cr labels b.meta _ s h in
      subst (IsFrontendDeployment cr labels) made
        (record { child = child; replicas = refl; selector = refl; template = refl })

  mutate_frontend_service-IsFrontendService :
      (b s : Service) → mutate_frontend_service R cr labels b ≡ ok s → IsFrontendService cr labels s
  unfolding mutate_frontend_service
  mutate_frontend_service-IsFrontendService b s h =
      let (m', made, child, _) = owned R L.utilities cr labels b.meta _ s h in
      subst (IsFrontendService cr labels) made
        (record { child = child; type = refl; selector = refl; ports = refl })

  mutate_frontend_ingress-IsFrontendIngress :
      (b s : Ingress) → mutate_frontend_ingress R cr labels b ≡ ok s → IsFrontendIngress cr labels s
  unfolding mutate_frontend_ingress
  mutate_frontend_ingress-IsFrontendIngress b s h =
      let (m', made, child, _) = owned R L.utilities cr labels b.meta _ s h in
      subst (IsFrontendIngress cr labels) made
        (record { child = child; class = class_or_keep_given _ _; rules = refl })

  pub reconcile_frontend-Implements :
      Implements R (reconcile_frontend R cr labels) (frontend_wants cr labels)
  unfolding reconcile_frontend reconcile_frontend_deployment reconcile_frontend_service
      reconcile_frontend_ingress same_ref
  reconcile_frontend-Implements =
      Implements-seq R _ _ (_ ∷ []) _
        (Implements-wrap_error R _ _ _ (
          Implements-apply R L.frames L.effects deployment _ _ _
            mutate_frontend_deployment-IsFrontendDeployment))
        (Implements-seq R _ _ (_ ∷ []) _
          (Implements-apply R L.frames L.effects service _ _ _
            mutate_frontend_service-IsFrontendService)
          (Implements-apply R L.frames L.effects ingress _ _ _
            mutate_frontend_ingress-IsFrontendIngress)
          (inl refl, tt))
        (inl refl, tt)
