-- ===== src/Reconcile/Specified/Pods.antt =====
-- The pods of the hub and of the frontend that a resource asks for.
use kubeshark_operator.Common.{String, false, none, some, List, [], ◌∷◌}
use kubeshark_operator.Kube.Meta.{meta_named}
use kubeshark_operator.Kube.Pod.{ContainerPort, EnvVar, field_ref, PodTemplateSpec}
use kubeshark_operator.Api.{Kubeshark}
use kubeshark_operator.Reconcile.Specified.{given_or, object_labels, hub_account}

abbrev pub variable : String → String → EnvVar
variable name value = record { name = name; value = value; value_from = none }

abbrev pub pod_name : EnvVar
pod_name = record { name = "POD_NAME"; value = ""; value_from = some (field_ref "metadata.name") }

abbrev pub pod_namespace : EnvVar
pod_namespace = record {
  name = "POD_NAMESPACE";
  value = "";
  value_from = some (field_ref "metadata.namespace");
}

-- A port without a name, as the hub and the frontend have it.
abbrev pub port_8080 : ContainerPort
port_8080 = record { name = ""; host_port = 0; container_port = 8080; protocol = ""; host_ip = "" }

-- The hub's pods, with the ports of their container.
abbrev pub hub_pods : Kubeshark → List ContainerPort → PodTemplateSpec
hub_pods cr ports = record {
  meta = record (meta_named "" "") { labels = object_labels cr };
  spec = record {
    init_containers = [];
    containers =
        record {
          name = "kubeshark-hub";
          image = given_or cr.spec.hub_image "docker.io/kubeshark/hub:v52.3.82";
          image_pull_policy = "";
          command = [];
          ports = ports;
          env = pod_name ∷ pod_namespace ∷ [];
          resources = record { limits = []; requests = [] };
          security_context = none;
          readiness_probe = none;
          liveness_probe = none;
          volume_mounts = [];
          other = [];
        }
        ∷ [];
    service_account_name = hub_account cr;
    host_network = false;
    dns_policy = "";
    tolerations = [];
    affinity = none;
    volumes = [];
    other = [];
  };
}

abbrev pub frontend_pods : Kubeshark → PodTemplateSpec
frontend_pods cr = record {
  meta = record (meta_named "" "") { labels = object_labels cr };
  spec = record {
    init_containers = [];
    containers =
        record {
          name = "frontend";
          image = given_or cr.spec.frontend_image "docker.io/kubeshark/front:v52.3.82";
          image_pull_policy = "";
          command = [];
          ports = port_8080 ∷ [];
          env =
              variable "REACT_APP_DEFAULT_FILTER" "{}"
              ∷ variable "REACT_APP_AUTH_ENABLED" "false"
              ∷ variable "REACT_APP_AUTH_TYPE" "none"
              ∷ variable "REACT_APP_AUTH_SAML_IDP_METADATA_URL" "https://example.com"
              ∷ variable "REACT_APP_TIMEZONE" "IST"
              ∷ variable "REACT_APP_REPLAY_DISABLED" "false"
              ∷ variable "REACT_APP_RECORDING_DISABLED" "false"
              ∷ variable "REACT_APP_SCRIPTING_DISABLED" "false"
              ∷ variable "REACT_APP_TARGETED_PODS_UPDATE_DISABLED" "false"
              ∷ variable "REACT_APP_BPF_OVERRIDE_DISABLED" "false"
              ∷ variable "REACT_APP_CLOUD_LICENSE_ENABLED" "false"
              ∷ variable "REACT_APP_STOP_TRAFFIC_CAPTURING_DISABLED" "false"
              ∷ variable "REACT_APP_SUPPORT_CHAT_ENABLED" "false"
              ∷ variable "REACT_APP_DISSECTORS_UPDATING_ENABLED" "false"
              ∷ variable "REACT_APP_SENTRY_ENABLED" "false"
              ∷ [];
          resources = record { limits = []; requests = [] };
          security_context = none;
          readiness_probe = none;
          liveness_probe = none;
          volume_mounts = [];
          other = [];
        }
        ∷ [];
    service_account_name = "";
    host_network = false;
    dns_policy = "";
    tolerations = [];
    affinity = none;
    volumes = [];
    other = [];
  };
}
