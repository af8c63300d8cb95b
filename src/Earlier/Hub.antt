-- ===== src/Earlier/Hub.antt =====
-- internal/controller/utils.go: `createOrUpdateHubService`, `createOrUpdateHubDeployment` and
-- `createOrUpdateHubConfigMap`. `getOrDefaultInt` is declared nowhere, and is a parameter.
use kubeshark_operator.Common.{ℕ, String, Option, none, some, [], ◌∷◌, Result, ok}
use kubeshark_operator.Common.Exec.{Exec, wrap_error}
use kubeshark_operator.Common.Maps.{StringMap}
use kubeshark_operator.Kube.Meta.{meta_named}
use kubeshark_operator.Kube.Pod.{
  port_numbered, env_from_field, Container, container_named, pod_of, PodTemplateSpec,
}
use kubeshark_operator.Kube.Workload.{Deployment, deployment_of}
use kubeshark_operator.Kube.Network.{Service, service_of}
use kubeshark_operator.Kube.Access.{ConfigMap, config_map_of}
use kubeshark_operator.Kube.Object.{config_map, deployment, service}
use kubeshark_operator.Api.{Kubeshark}
use kubeshark_operator.Names.{get_or_default_string}
use kubeshark_operator.Runtime.{Runtime}
use kubeshark_operator.Earlier.Apply.{applied}

unfoldable pub default_data : StringMap
default_data =
    ("POD_REGEX", ".*")
    ∷ ("NAMESPACES", "")
    ∷ ("EXCLUDED_NAMESPACES", "")
    ∷ ("BPF_OVERRIDE", "")
    ∷ ("STOPPED", "false")
    ∷ ("SCRIPTING_SCRIPTS", "{}")
    ∷ ("SCRIPTING_ACTIVE_SCRIPTS", "")
    ∷ ("INGRESS_ENABLED", "false")
    ∷ ("INGRESS_HOST", "ks.svc.cluster.local")
    ∷ ("PROXY_FRONT_PORT", "8899")
    ∷ ("AUTH_ENABLED", "true")
    ∷ ("AUTH_TYPE", "default")
    ∷ ("AUTH_SAML_IDP_METADATA_URL", "")
    ∷ ("AUTH_SAML_ROLE_ATTRIBUTE", "role")
    ∷ (
      "AUTH_SAML_ROLES",
      "{\"admin\":{\"canDownloadPCAP\":true,\"canStopTrafficCapturing\":true,\"canUpdateTargetedPods\":true,\"canUseScripting\":true,\"filter\":\"\",\"scriptingPermissions\":{\"canActivate\":true,\"canDelete\":true,\"canSave\":true},\"showAdminConsoleLink\":true}}",
    )
    ∷ ("AUTH_OIDC_ISSUER", "not set")
    ∷ ("AUTH_OIDC_REFRESH_TOKEN_LIFETIME", "3960h")
    ∷ ("AUTH_OIDC_STATE_PARAM_EXPIRY", "10m")
    ∷ ("AUTH_OIDC_BYPASS_SSL_CA_CHECK", "false")
    ∷ ("TELEMETRY_DISABLED", "false")
    ∷ ("SCRIPTING_DISABLED", "false")
    ∷ ("TARGETED_PODS_UPDATE_DISABLED", "")
    ∷ ("PRESET_FILTERS_CHANGING_ENABLED", "true")
    ∷ ("RECORDING_DISABLED", "")
    ∷ ("STOP_TRAFFIC_CAPTURING_DISABLED", "false")
    ∷ ("GLOBAL_FILTER", "")
    ∷ ("DEFAULT_FILTER", "!dns and !error")
    ∷ ("TRAFFIC_SAMPLE_RATE", "100")
    ∷ ("JSON_TTL", "5m")
    ∷ ("PCAP_TTL", "10s")
    ∷ ("PCAP_ERROR_TTL", "60s")
    ∷ ("TIMEZONE", " ")
    ∷ ("CLOUD_LICENSE_ENABLED", "true")
    ∷ ("AI_ASSISTANT_ENABLED", "true")
    ∷ ("DUPLICATE_TIMEFRAME", "200ms")
    ∷ ("ENABLED_DISSECTORS", "amqp,dns,http,icmp,kafka,redis,sctp,ws,ldap,radius,diameter")
    ∷ ("CUSTOM_MACROS", "{\"https\":\"tls and (http or http2)\"}")
    ∷ ("DISSECTORS_UPDATING_ENABLED", "true")
    ∷ ("DETECT_DUPLICATES", "false")
    ∷ ("PCAP_DUMP_ENABLE", "true")
    ∷ ("PCAP_TIME_INTERVAL", "1m")
    ∷ ("PCAP_MAX_TIME", "1h")
    ∷ ("PCAP_MAX_SIZE", "500MB")
    ∷ (
      "PORT_MAPPING",
      "{\"amqp\":[5671,5672],\"diameter\":[3868],\"http\":[80,443,8080],\"kafka\":[9092],\"ldap\":[389],\"redis\":[6379]}",
    )
    ∷ []

module _ (cr : Kubeshark) where
  unfoldable pub hub_service_object : Service
  unfolding get_or_default_string
  hub_service_object = service_of (
      meta_named (get_or_default_string cr.spec.hub_service_name "kubeshark-hub") cr.meta.namespace)

  unfoldable pub hub_deployment_object : Deployment
  unfolding get_or_default_string
  hub_deployment_object = deployment_of (
      meta_named (get_or_default_string cr.spec.hub_deployment_name "kubeshark-hub-deployment")
        cr.meta.namespace)

  unfoldable pub hub_container : Container
  unfolding get_or_default_string
  hub_container =
      record (container_named "kubeshark-hub"
        (get_or_default_string cr.spec.hub_image "docker.io/kubeshark/hub:v52.3.82")) {
          ports = port_numbered 8080 ∷ [];
          env =
              env_from_field "POD_NAME" "metadata.name"
              ∷ env_from_field "POD_NAMESPACE" "metadata.namespace"
              ∷ [];
        }

  unfoldable pub hub_config_map_object : ConfigMap
  unfolding get_or_default_string
  hub_config_map_object = config_map_of (
      meta_named (get_or_default_string cr.spec.hub_config_map_name "kubeshark-config-map")
        cr.meta.namespace)

unfoldable pub mutate_hub_service : StringMap → Service → Result Service
mutate_hub_service labels svc = ok (record svc {
  meta = record svc.meta { labels = labels };
  spec = record svc.spec {
    ports = record { name = ""; port = 80; target_port = 8080 } ∷ [];
    selector = labels;
  };
})

-- `if desiredDeployment.CreationTimestamp.IsZero()`: a stored selector is left alone.
unfoldable pub selector_if_new : StringMap → Option ℕ → Option StringMap → Option StringMap
selector_if_new labels none old = some labels
selector_if_new labels (some _) old = old

-- `cr.Spec.HubConfigMapData` if it is not nil
unfoldable pub custom_or_default : Option StringMap → StringMap
custom_or_default (some entries) = entries
custom_or_default none = default_data

module _ (cr : Kubeshark) (labels : StringMap) where
  -- The annotations of the pods are kept.
  unfoldable pub hub_template : StringMap → PodTemplateSpec
  unfolding hub_container get_or_default_string
  hub_template annotations = record {
    meta = record (meta_named "" "") { labels = labels; annotations = annotations };
    spec = record (pod_of (hub_container cr ∷ [])) {
      service_account_name =
          get_or_default_string cr.spec.service_account_hub "kubeshark-service-account";
    };
  }

  module _ (get_or_default_int : Option ℕ → ℕ → Option ℕ) where
    unfoldable pub mutate_hub_deployment : Deployment → Result Deployment
    unfolding selector_if_new
    mutate_hub_deployment dep = ok (record dep {
      spec = record dep.spec {
        replicas = get_or_default_int cr.spec.hub_replicas 1;
        selector = selector_if_new labels dep.meta.creation_timestamp dep.spec.selector;
        template = hub_template dep.spec.template.meta.annotations;
      };
    })

  unfoldable pub mutate_hub_config_map : ConfigMap → Result ConfigMap
  unfolding custom_or_default
  mutate_hub_config_map cm = ok (record cm {
    meta = record cm.meta { labels = labels };
    entries = custom_or_default cr.spec.hub_config_map_data;
  })

module _ (R : Runtime) (cr : Kubeshark) (labels : StringMap) where
  unfoldable pub create_or_update_hub_service : Exec R.World (Option Service × String)
  create_or_update_hub_service =
      applied R service (hub_service_object cr) (mutate_hub_service labels) " Service:"

  unfoldable pub create_or_update_hub_deployment :
      (Option ℕ → ℕ → Option ℕ) → Exec R.World (Option Deployment × String)
  create_or_update_hub_deployment get_or_default_int =
      wrap_error "failed to create or update Hub Deployment" (
        applied R deployment (hub_deployment_object cr)
          (mutate_hub_deployment cr labels get_or_default_int) " Deployment:")

  unfoldable pub create_or_update_hub_config_map : Exec R.World (Option ConfigMap × String)
  create_or_update_hub_config_map =
      applied R config_map (hub_config_map_object cr) (mutate_hub_config_map cr labels)
        " ConfigMap:"
