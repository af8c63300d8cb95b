-- ===== src/Reconcile/Specified/Objects.antt =====
-- The twelve objects that a resource asks for.
use kubeshark_operator.Common.{ℕ, String, ◌<>◌, none, some, List, [], ◌∷◌, ◌≡◌, ◌≢◌}
use kubeshark_operator.Common.Maps.{StringMap, lookup}
use kubeshark_operator.Kube.Object.{
  Kind, ObjectOf, config_map, service_account, deployment, service, cluster_role,
  cluster_role_binding, daemon_set, ingress, secret,
}
use kubeshark_operator.Kube.Meta.{ObjectMeta}
use kubeshark_operator.Kube.Workload.{Deployment, DaemonSet}
use kubeshark_operator.Kube.Network.{Service, Ingress}
use kubeshark_operator.Kube.Access.{ConfigMap, PolicyRule, ClusterRole, ClusterRoleBinding, Secret}
use kubeshark_operator.Api.{Kubeshark}
use kubeshark_operator.Runtime.Owned.{IsChild}
use kubeshark_operator.Runtime.Wants.{Want}
use kubeshark_operator.Reconcile.Specified.{
  given_or, list_or, object_labels, hub_account, worker_account, cluster_wide_name, role_name,
}
use kubeshark_operator.Reconcile.Specified.Table.{default_settings}
use kubeshark_operator.Reconcile.Specified.Pods.{hub_pods, frontend_pods, port_8080}
use kubeshark_operator.Reconcile.Specified.Nodes.{worker_pods}

-- Who may read what, where the resource has no rules.
abbrev pub default_rules : List PolicyRule
default_rules =
    record {
      api_groups = "" ∷ [];
      resources =
          "configmaps" ∷ "secrets" ∷ "nodes" ∷ "pods" ∷ "services" ∷ "endpoints"
          ∷ "persistentvolumeclaims" ∷ [];
      resource_names = [];
      verbs = "list" ∷ "get" ∷ "watch" ∷ [];
      non_resource_urls = [];
    }
    ∷ record {
      api_groups = "" ∷ [];
      resources = "namespaces" ∷ [];
      resource_names = "kube-system" ∷ [];
      verbs = "get" ∷ [];
      non_resource_urls = [];
    }
    ∷ record {
      api_groups = "extensions" ∷ "apps" ∷ [];
      resources = "deployments" ∷ [];
      resource_names = [];
      verbs = "get" ∷ "list" ∷ "watch" ∷ [];
      non_resource_urls = [];
    }
    ∷ []

module _ (cr : Kubeshark) where
  -- The resource controls the object, which carries the three labels.
  abbrev pub IsOurs : ObjectMeta → Type 0
  IsOurs m = IsChild cr (object_labels cr) m

  -- The resource's settings, or the default ones.
  pub record SpecifiedConfigMap (o : ConfigMap) : Type 0 where
    pub ours : IsOurs o.meta
    pub given : (d : StringMap) → cr.spec.hub_config_map_data ≡ some d → o.entries ≡ d
    pub absent : cr.spec.hub_config_map_data ≡ none → o.entries ≡ default_settings

  pub record SpecifiedHub (o : Deployment) : Type 0 where
    pub ours : IsOurs o.meta
    pub given : (n : ℕ) → cr.spec.hub_replicas ≡ some n → o.spec.replicas ≡ some n
    pub absent : cr.spec.hub_replicas ≡ none → o.spec.replicas ≡ some 1
    pub selector : o.spec.selector ≡ some (object_labels cr)
    pub template :
        o.spec.template ≡ hub_pods cr (list_or cr.spec.hub_container_ports (port_8080 ∷ []))

  pub record SpecifiedHubService (o : Service) : Type 0 where
    pub ours : IsOurs o.meta
    pub selector : o.spec.selector ≡ object_labels cr
    pub ports : o.spec.ports ≡ record { name = ""; port = 80; target_port = 8080 } ∷ []

  pub record SpecifiedRole (o : ClusterRole) : Type 0 where
    pub labelled : o.meta.labels ≡ object_labels cr
    pub rules : o.rules ≡ list_or cr.spec.cluster_role_rules default_rules

  -- The role is bound to both accounts.
  pub record SpecifiedBinding (o : ClusterRoleBinding) : Type 0 where
    pub labelled : o.meta.labels ≡ object_labels cr
    pub role_ref : o.role_ref ≡ record {
      api_group = "rbac.authorization.k8s.io";
      kind = "ClusterRole";
      name = role_name cr;
    }
    pub subjects :
        o.subjects
        ≡ record { kind = "ServiceAccount"; name = hub_account cr; namespace = cr.meta.namespace }
          ∷ record {
            kind = "ServiceAccount";
            name = worker_account cr;
            namespace = cr.meta.namespace;
          }
          ∷ []

  pub record SpecifiedWorker (o : DaemonSet) : Type 0 where
    pub ours : IsOurs o.meta
    pub spec : o.spec ≡ worker_pods cr

  pub record SpecifiedFrontend (o : Deployment) : Type 0 where
    pub ours : IsOurs o.meta
    pub replicas : o.spec.replicas ≡ some 1
    pub selector : o.spec.selector ≡ some (object_labels cr)
    pub template : o.spec.template ≡ frontend_pods cr

  pub record SpecifiedFrontendService (o : Service) : Type 0 where
    pub ours : IsOurs o.meta
    pub type : o.spec.type ≡ "ClusterIP"
    pub selector : o.spec.selector ≡ object_labels cr
    pub ports : o.spec.ports ≡ record { name = "http"; port = 80; target_port = 8080 } ∷ []

  -- All paths of the host lead to the frontend's Service.
  pub record SpecifiedIngress (o : Ingress) : Type 0 where
    pub ours : IsOurs o.meta
    pub class :
        cr.spec.ingress_class_name ≢ ""
        → o.spec.ingress_class_name ≡ some cr.spec.ingress_class_name
    pub rules :
        o.spec.rules
        ≡ record {
          host = cr.spec.ingress_host;
          http_paths =
              record {
                path = "/";
                path_type = some "ImplementationSpecific";
                backend = some (record { name = cr.meta.name <> "-frontend"; port_number = 80 });
              }
              ∷ [];
        }
          ∷ []

  pub record SpecifiedSecret (o : Secret) : Type 0 where
    pub ours : IsOurs o.meta
    pub type : o.type ≡ "Opaque"
    pub content : StringMap
    pub string_data : o.string_data ≡ some content
    pub license : lookup "LICENSE" content ≡ some cr.spec.secret_kubeshark.license
    pub scripting :
        lookup "SCRIPTING_ENV" content
        ≡ some (given_or cr.spec.secret_kubeshark.scripting_env_json "{}")
    pub client_id :
        lookup "OIDC_CLIENT_ID" content
        ≡ some (given_or cr.spec.secret_kubeshark.oidc_client_id "not set")
    pub client_secret :
        lookup "OIDC_CLIENT_SECRET" content
        ≡ some (given_or cr.spec.secret_kubeshark.oidc_client_secret "not set")

  abbrev inside : (k : Kind) → String → (ObjectOf k → Type 0) → Want
  inside k name desired = record {
    ref = record { kind = k; namespace = cr.meta.namespace; name = name };
    desired = desired;
  }

  abbrev pub specified : List Want
  specified =
      inside config_map (given_or cr.spec.hub_config_map_name (cr.meta.name <> "-config"))
        SpecifiedConfigMap
      ∷ inside service_account (hub_account cr) (λ o. IsOurs o.meta)
      ∷ inside deployment (given_or cr.spec.hub_deployment_name (cr.meta.name <> "-hub"))
          SpecifiedHub
      ∷ inside service (given_or cr.spec.hub_service_name (cr.meta.name <> "-hub"))
          SpecifiedHubService
      ∷ inside service_account (worker_account cr) (λ o. IsOurs o.meta)
      ∷ record {
        ref = record { kind = cluster_role; namespace = ""; name = role_name cr };
        desired = SpecifiedRole;
      }
      ∷ record {
        ref = record {
          kind = cluster_role_binding;
          namespace = "";
          name = given_or cr.spec.cluster_role_binding_name (cluster_wide_name cr);
        };
        desired = SpecifiedBinding;
      }
      ∷ inside daemon_set (given_or cr.spec.worker_daemon_set_name (cr.meta.name <> "-worker"))
          SpecifiedWorker
      ∷ inside deployment (cr.meta.name <> "-frontend") SpecifiedFrontend
      ∷ inside service (cr.meta.name <> "-frontend") SpecifiedFrontendService
      ∷ inside ingress (given_or cr.spec.ingress_name (cr.meta.name <> "-frontend-ingress"))
          SpecifiedIngress
      ∷ inside secret (cr.meta.name <> "-secret") SpecifiedSecret
      ∷ []
