-- ===== src/Frontend/Desired.antt =====
-- What the frontend's objects should be, for a resource and its labels.
use kubeshark_operator.Common.{◌≡◌, ◌≢◌, some, List, [], ◌∷◌}
use kubeshark_operator.Common.Maps.{StringMap}
use kubeshark_operator.Kube.Workload.{Deployment}
use kubeshark_operator.Kube.Network.{Service, Ingress}
use kubeshark_operator.Kube.Object.{deployment, service, ingress}
use kubeshark_operator.Api.{Kubeshark}
use kubeshark_operator.Names.{
  frontend_deployment_name, frontend_service_name, frontend_ingress_name,
}
use kubeshark_operator.Runtime.Owned.{IsChild}
use kubeshark_operator.Runtime.Wants.{Want}
use kubeshark_operator.Frontend.Objects.{frontend_template, frontend_rules}

module _ (cr : Kubeshark) (labels : StringMap) where
  pub record IsFrontendDeployment (o : Deployment) : Type 0 where
    pub child : IsChild cr labels o.meta
    pub replicas : o.spec.replicas ≡ some 1
    pub selector : o.spec.selector ≡ some labels
    pub template : o.spec.template ≡ frontend_template cr labels

  pub record IsFrontendService (o : Service) : Type 0 where
    pub child : IsChild cr labels o.meta
    pub type : o.spec.type ≡ "ClusterIP"
    pub selector : o.spec.selector ≡ labels
    pub ports : o.spec.ports ≡ record { name = "http"; port = 80; target_port = 8080 } ∷ []

  -- The class is as the resource says, if it says one.
  pub record IsFrontendIngress (o : Ingress) : Type 0 where
    pub child : IsChild cr labels o.meta
    pub class :
        cr.spec.ingress_class_name ≢ ""
        → o.spec.ingress_class_name ≡ some cr.spec.ingress_class_name
    pub rules : o.spec.rules ≡ frontend_rules cr

  abbrev pub frontend_wants : List Want
  frontend_wants =
      record {
        ref = record {
          kind = deployment;
          namespace = cr.meta.namespace;
          name = frontend_deployment_name cr;
        };
        desired = IsFrontendDeployment;
      }
      ∷ record {
        ref = record {
          kind = service;
          namespace = cr.meta.namespace;
          name = frontend_service_name cr;
        };
        desired = IsFrontendService;
      }
      ∷ record {
        ref = record {
          kind = ingress;
          namespace = cr.meta.namespace;
          name = frontend_ingress_name cr;
        };
        desired = IsFrontendIngress;
      }
      ∷ []
