-- ===== src/Hub/Desired.antt =====
-- What the hub's objects should be, for a resource and its labels.
use kubeshark_operator.Common.{◌≡◌, some, List, [], ◌∷◌}
use kubeshark_operator.Common.Maps.{StringMap}
use kubeshark_operator.Kube.Workload.{Deployment}
use kubeshark_operator.Kube.Network.{Service}
use kubeshark_operator.Kube.Access.{ConfigMap}
use kubeshark_operator.Kube.Object.{config_map, service_account, deployment, service}
use kubeshark_operator.Api.{Kubeshark}
use kubeshark_operator.Names.{
  hub_replicas, hub_config_map_name, hub_service_account_name, hub_deployment_name,
  hub_service_name,
}
use kubeshark_operator.Runtime.Owned.{IsChild}
use kubeshark_operator.Runtime.Wants.{Want}
use kubeshark_operator.Hub.Objects.{hub_config_map_data, hub_template}

module _ (cr : Kubeshark) (labels : StringMap) where
  pub record IsHubConfigMap (o : ConfigMap) : Type 0 where
    pub child : IsChild cr labels o.meta
    pub entries : o.entries ≡ hub_config_map_data cr

  pub record IsHubDeployment (o : Deployment) : Type 0 where
    pub child : IsChild cr labels o.meta
    pub replicas : o.spec.replicas ≡ hub_replicas cr
    pub selector : o.spec.selector ≡ some labels
    pub template : o.spec.template ≡ hub_template cr labels

  pub record IsHubService (o : Service) : Type 0 where
    pub child : IsChild cr labels o.meta
    pub selector : o.spec.selector ≡ labels
    pub ports : o.spec.ports ≡ record { name = ""; port = 80; target_port = 8080 } ∷ []

  abbrev pub service_account_want : Want
  service_account_want = record {
    ref = record {
      kind = service_account;
      namespace = cr.meta.namespace;
      name = hub_service_account_name cr;
    };
    desired = λ o. IsChild cr labels o.meta;
  }

  abbrev pub hub_wants : List Want
  hub_wants =
      record {
        ref = record {
          kind = config_map;
          namespace = cr.meta.namespace;
          name = hub_config_map_name cr;
        };
        desired = IsHubConfigMap;
      }
      ∷ service_account_want
      ∷ record {
        ref = record {
          kind = deployment;
          namespace = cr.meta.namespace;
          name = hub_deployment_name cr;
        };
        desired = IsHubDeployment;
      }
      ∷ record {
        ref = record { kind = service; namespace = cr.meta.namespace; name = hub_service_name cr };
        desired = IsHubService;
      }
      ∷ []
