-- ===== src/Hub/Correct.antt =====
-- `reconcileHub` leaves the hub's objects as they should be.
use kubeshark_operator.Common.{◌≡◌, refl, subst, inl, [], ◌∷◌, ok}
use kubeshark_operator.Common.Maps.{StringMap}
use kubeshark_operator.Kube.Object.{config_map, service_account, deployment, service, same_ref}
use kubeshark_operator.Kube.Workload.{Deployment}
use kubeshark_operator.Kube.Network.{Service}
use kubeshark_operator.Kube.Access.{ConfigMap, ServiceAccount}
use kubeshark_operator.Api.{Kubeshark}
use kubeshark_operator.Runtime.{Runtime}
use kubeshark_operator.Runtime.Laws.{IsLawful}
use kubeshark_operator.Runtime.Owned.{IsChild, owned}
use kubeshark_operator.Runtime.Wants.{
  Implements, Implements-seq, Implements-wrap_error, Implements-apply,
}
use kubeshark_operator.Hub.Objects.{
  mutate_hub_config_map, mutate_hub_service_account, mutate_hub_deployment, mutate_hub_service,
}
use kubeshark_operator.Hub.Desired.{IsHubConfigMap, IsHubDeployment, IsHubService, hub_wants}
use kubeshark_operator.Hub.{
  reconcile_hub, reconcile_hub_config_map, reconcile_hub_service_account, reconcile_hub_deployment,
  reconcile_hub_service,
}

module _ (R : Runtime) (L : IsLawful R) (cr : Kubeshark) (labels : StringMap) where
  mutate_hub_config_map-IsHubConfigMap :
      (b s : ConfigMap) → mutate_hub_config_map R cr labels b ≡ ok s → IsHubConfigMap cr labels s
  unfolding mutate_hub_config_map
  mutate_hub_config_map-IsHubConfigMap b s h =
      let (m', made, child, _) = owned R L.utilities cr labels b.meta _ s h in
      subst (IsHubConfigMap cr labels) made (record { child = child; entries = refl })

  mutate_hub_service_account-IsChild :
      (b s : ServiceAccount)
      → mutate_hub_service_account R cr labels b ≡ ok s
      → IsChild cr labels s.meta
  unfolding mutate_hub_service_account
  mutate_hub_service_account-IsChild b s h =
      let (m', made, child, _) = owned R L.utilities cr labels b.meta _ s h in
      subst (λ (o : ServiceAccount). IsChild cr labels o.meta) made child

  mutate_hub_deployment-IsHubDeployment :
      (b s : Deployment) → mutate_hub_deployment R cr labels b ≡ ok s → IsHubDeployment cr labels s
  unfolding mutate_hub_deployment
  mutate_hub_deployment-IsHubDeployment b s h =
      let (m', made, child, _) = owned R L.utilities cr labels b.meta _ s h in
      subst (IsHubDeployment cr labels) made
        (record { child = child; replicas = refl; selector = refl; template = refl })

  mutate_hub_service-IsHubService :
      (b s : Service) → mutate_hub_service R cr labels b ≡ ok s → IsHubService cr labels s
  unfolding mutate_hub_service
  mutate_hub_service-IsHubService b s h =
      let (m', made, child, _) = owned R L.utilities cr labels b.meta _ s h in
      subst (IsHubService cr labels) made (record { child = child; selector = refl; ports = refl })

  pub reconcile_hub-Implements : Implements R (reconcile_hub R cr labels) (hub_wants cr labels)
  unfolding reconcile_hub reconcile_hub_config_map reconcile_hub_service_account
      reconcile_hub_deployment reconcile_hub_service same_ref
  reconcile_hub-Implements =
      Implements-seq R _ _ (_ ∷ []) _
        (Implements-apply R L.frames L.effects config_map _ _ _
          mutate_hub_config_map-IsHubConfigMap)
        (Implements-seq R _ _ (_ ∷ []) _
          (Implements-apply R L.frames L.effects service_account _ _ _
            mutate_hub_service_account-IsChild)
          (Implements-seq R _ _ (_ ∷ []) _
            (Implements-wrap_error R _ _ _ (
              Implements-apply R L.frames L.effects deployment _ _ _
                mutate_hub_deployment-IsHubDeployment))
            (Implements-apply R L.frames L.effects service _ _ _ mutate_hub_service-IsHubService)
            (inl refl, tt))
          (inl refl, tt))
        (inl refl, tt)
