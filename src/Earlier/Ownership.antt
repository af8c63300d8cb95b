-- ===== src/Earlier/Ownership.antt =====
-- internal/controller/utils.go against hub.go, frontend.go, secret.go, rbac.go and worker.go: what
-- the functions passed to `CreateOrUpdate` have become.
use kubeshark_operator.Common.{Option, none, some, [], ◌≡◌, ◌≢◌, refl, Result, ok, eq-false_of_ne}
use kubeshark_operator.Common.Outcome.{◌>>=◌}
use kubeshark_operator.Common.Maps.{StringMap}
use kubeshark_operator.Kube.Meta.{ObjectMeta}
use kubeshark_operator.Kube.Workload.{DaemonSet}
use kubeshark_operator.Kube.Network.{Service, Ingress}
use kubeshark_operator.Kube.Access.{ClusterRole, ConfigMap, Secret}
use kubeshark_operator.Api.{Kubeshark}
use kubeshark_operator.Runtime.{Runtime}
use kubeshark_operator.Runtime.Owned.{labelled}
use kubeshark_operator.Hub.Config.{default_hub_config_map_data}
use kubeshark_operator.Hub.Objects.{hub_config_map_data}
use kubeshark_operator.Hub.Objects as Hub
use kubeshark_operator.Frontend.Objects.{frontend_rules, class_or_keep}
use kubeshark_operator.Frontend.Objects as Frontend
use kubeshark_operator.Rbac.Objects.{cluster_role_rules, default_cluster_role_rules}
use kubeshark_operator.Rbac.Objects as Rbac
use kubeshark_operator.Secret.{write_secret_data, map_or_empty}
use kubeshark_operator.Secret as Current
use kubeshark_operator.Worker as Worker
use kubeshark_operator.Earlier.{earlier-eq-current}
use kubeshark_operator.Earlier.Hub.{default_data, custom_or_default}
use kubeshark_operator.Earlier.Hub as OldHub
use kubeshark_operator.Earlier.Frontend.{ingress_rules}
use kubeshark_operator.Earlier.Frontend as OldFrontend
use kubeshark_operator.Earlier.Rbac.{dynamic_rules}
use kubeshark_operator.Earlier.Rbac as OldRbac
use kubeshark_operator.Earlier.Secret.{put_keys, empty_if_nil}
use kubeshark_operator.Earlier.Secret as OldSecret
use kubeshark_operator.Earlier.Worker as OldWorker

-- Set the controller reference and the labels, and go on with the metadata.
unfoldable pub owned_then :
    {A : Type 0} → Runtime → Kubeshark → StringMap → ObjectMeta → (ObjectMeta → Result A) → Result A
owned_then R cr labels m next =
    R.set_controller_reference cr.meta m >>= λ meta. next (labelled labels meta)

-- Four of the current functions own and label the object, and then do what the earlier one did.
pub record OwnersAdded (R : Runtime) (cr : Kubeshark) (labels : StringMap) : Type 0 where
  pub hub_config_map :
      (o : ConfigMap)
      → Hub.mutate_hub_config_map R cr labels o
        ≡ owned_then R cr labels o.meta
            (λ m. OldHub.mutate_hub_config_map cr labels (record o { meta = m }))
  pub hub_service :
      (o : Service)
      → Hub.mutate_hub_service R cr labels o
        ≡ owned_then R cr labels o.meta
            (λ m. OldHub.mutate_hub_service labels (record o { meta = m }))
  pub frontend_service :
      (o : Service)
      → Frontend.mutate_frontend_service R cr labels o
        ≡ owned_then R cr labels o.meta
            (λ m. OldFrontend.mutate_frontend_service labels (record o { meta = m }))
  pub kubeshark_secret :
      (o : Secret)
      → Current.mutate_secret R cr labels o
        ≡ owned_then R cr labels o.meta
            (λ m. OldSecret.mutate_kubeshark_secret cr (record o { meta = m }))

hub_data_same :
    (cr : Kubeshark) → hub_config_map_data cr ≡ custom_or_default cr.spec.hub_config_map_data
unfolding hub_config_map_data custom_or_default default_data default_hub_config_map_data
hub_data_same cr = elim cr.spec.hub_config_map_data [ some d ↦ refl | none ↦ refl ]

secret_data_same :
    (cr : Kubeshark) (old : Option StringMap)
    → write_secret_data cr.spec.secret_kubeshark (map_or_empty old)
      ≡ put_keys cr.spec.secret_kubeshark (empty_if_nil old)
unfolding write_secret_data put_keys empty_if_nil
secret_data_same cr none = refl
secret_data_same cr (some m) = refl

module _ (R : Runtime) (cr : Kubeshark) (labels : StringMap) where
  -- For every runtime, resource and labels: the functions that the hub's ConfigMap, the hub's and
  -- the frontend's Service and the Secret are made with today refuse and return what the earlier
  -- functions do on an object that has been given the controller reference and the labels.
  pub mutate-OwnersAdded : OwnersAdded R cr labels
  unfolding owned_then Hub.mutate_hub_config_map Hub.mutate_hub_service
      Frontend.mutate_frontend_service Current.mutate_secret OldHub.mutate_hub_config_map
      OldHub.mutate_hub_service OldFrontend.mutate_frontend_service
      OldSecret.mutate_kubeshark_secret
  mutate-OwnersAdded = record {
    hub_config_map = λ o. rw (hub_data_same cr);
    hub_service = λ o. refl;
    frontend_service = λ o. refl;
    kubeshark_secret = λ o. rw (secret_data_same cr o.string_data);
  }

-- What the earlier code takes for granted: the rules are the defaults, the Ingress has a class, and
-- the worker's image and account are given.
pub record IsPlain (cr : Kubeshark) : Type 0 where
  pub rules : cr.spec.cluster_role_rules ≡ []
  pub class : cr.spec.ingress_class_name ≢ ""
  pub image : cr.spec.worker_image ≢ ""
  pub account : cr.spec.service_account_worker ≢ ""

-- The other functions that do what the earlier ones did to an owned and labelled object; a cluster
-- role has no owner, and the Ingress leads to the frontend's new Service.
pub record AgreesOnPlain (R : Runtime) (cr : Kubeshark) (labels : StringMap) : Type 0 where
  pub role :
      (o : ClusterRole)
      → Rbac.mutate_cluster_role cr labels o
        ≡ OldRbac.mutate_cluster_role (record o { meta = labelled labels o.meta })
  pub frontend_ingress :
      (o : Ingress)
      → Frontend.mutate_frontend_ingress R cr labels o
        ≡ owned_then R cr labels o.meta (λ m.
          OldFrontend.mutate_frontend_ingress cr labels (record o { meta = m }) >>= λ i.
          ok (record i { spec = record i.spec { rules = frontend_rules cr } }))
  pub worker :
      (o : DaemonSet)
      → Worker.mutate_worker R cr labels o
        ≡ owned_then R cr labels o.meta
            (λ m. OldWorker.mutate_worker_daemon_set cr labels (record o { meta = m }))

rules_same :
    (cr : Kubeshark) → cr.spec.cluster_role_rules ≡ [] → cluster_role_rules cr ≡ dynamic_rules
unfolding cluster_role_rules default_cluster_role_rules dynamic_rules
rules_same cr h = rw h refl

module _ (R : Runtime) (cr : Kubeshark) (labels : StringMap) where
  -- For every runtime and labels, and a resource with the default rules, an Ingress class, and a
  -- worker image and account of its own: the functions that the cluster role, the Ingress and the
  -- DaemonSet are made with today do what the earlier functions do on an object that has been given
  -- the labels and, but for the role, the controller reference. The Ingress gets new rules besides.
  pub mutate-AgreesOnPlain : IsPlain cr → AgreesOnPlain R cr labels
  unfolding owned_then Rbac.mutate_cluster_role Frontend.mutate_frontend_ingress
      Worker.mutate_worker OldRbac.mutate_cluster_role OldFrontend.mutate_frontend_ingress
      OldWorker.mutate_worker_daemon_set class_or_keep
  mutate-AgreesOnPlain plain = record {
    role = λ o. rw (rules_same cr plain.rules);
    frontend_ingress = λ o. rw (eq-false_of_ne cr.spec.ingress_class_name "" plain.class) refl;
    worker = λ o. rw (earlier-eq-current cr labels plain.image plain.account);
  }
