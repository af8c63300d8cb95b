-- ===== src/Frontend/Objects.antt =====
-- internal/controller/frontend.go: what the functions that `controllerutil.CreateOrUpdate` calls
-- make of the frontend's objects.
use kubeshark_operator.Common.{String, ◌==◌, Option, some, List, [], ◌∷◌, Result, ok, if◌then◌else◌}
use kubeshark_operator.Common.Outcome.{◌>>=◌}
use kubeshark_operator.Common.Maps.{StringMap}
use kubeshark_operator.Kube.Meta.{meta_named}
use kubeshark_operator.Kube.Pod.{
  port_numbered, env, EnvVar, container_named, pod_of, PodTemplateSpec,
}
use kubeshark_operator.Kube.Workload.{Deployment}
use kubeshark_operator.Kube.Network.{Service, Ingress, IngressRule}
use kubeshark_operator.Api.{Kubeshark}
use kubeshark_operator.Names.{get_or_default_string, default_frontend_image, frontend_service_name}
use kubeshark_operator.Runtime.{Runtime}

unfoldable pub frontend_env : List EnvVar
frontend_env =
    env "REACT_APP_DEFAULT_FILTER" "{}"
    ∷ env "REACT_APP_AUTH_ENABLED" "false"
    ∷ env "REACT_APP_AUTH_TYPE" "none"
    ∷ env "REACT_APP_AUTH_SAML_IDP_METADATA_URL" "https://example.com"
    ∷ env "REACT_APP_TIMEZONE" "IST"
    ∷ env "REACT_APP_REPLAY_DISABLED" "false"
    ∷ env "REACT_APP_RECORDING_DISABLED" "false"
    ∷ env "REACT_APP_SCRIPTING_DISABLED" "false"
    ∷ env "REACT_APP_TARGETED_PODS_UPDATE_DISABLED" "false"
    ∷ env "REACT_APP_BPF_OVERRIDE_DISABLED" "false"
    ∷ env "REACT_APP_CLOUD_LICENSE_ENABLED" "false"
    ∷ env "REACT_APP_STOP_TRAFFIC_CAPTURING_DISABLED" "false"
    ∷ env "REACT_APP_SUPPORT_CHAT_ENABLED" "false"
    ∷ env "REACT_APP_DISSECTORS_UPDATING_ENABLED" "false"
    ∷ env "REACT_APP_SENTRY_ENABLED" "false"
    ∷ []

unfoldable pub frontend_template : Kubeshark → StringMap → PodTemplateSpec
unfolding frontend_env get_or_default_string
frontend_template cr labels = record {
  meta = record (meta_named "" "") { labels = labels };
  spec = pod_of (
      record (container_named "frontend"
        (get_or_default_string cr.spec.frontend_image default_frontend_image)) {
          ports = port_numbered 8080 ∷ [];
          env = frontend_env;
        }
      ∷ []);
}

unfoldable pub frontend_rules : Kubeshark → List IngressRule
frontend_rules cr =
    record {
      host = cr.spec.ingress_host;
      http_paths =
          record {
            path = "/";
            path_type = some "ImplementationSpecific";
            backend = some (record { name = frontend_service_name cr; port_number = 80 });
          }
          ∷ [];
    }
    ∷ []

-- The class is written only if the resource names one.
unfoldable pub class_or_keep : String → Option String → Option String
class_or_keep class old = if class == "" then old else some class

module _ (R : Runtime) (cr : Kubeshark) (labels : StringMap) where
  unfoldable pub mutate_frontend_deployment : Deployment → Result Deployment
  mutate_frontend_deployment dep = do
    meta ← R.set_controller_reference cr.meta dep.meta
    ok (record dep {
      meta = record meta { labels = labels };
      spec = record dep.spec {
        replicas = some 1;
        selector = some labels;
        template = frontend_template cr labels;
      };
    })

  unfoldable pub mutate_frontend_service : Service → Result Service
  mutate_frontend_service svc = do
    meta ← R.set_controller_reference cr.meta svc.meta
    ok (record svc {
      meta = record meta { labels = labels };
      spec = record svc.spec {
        type = "ClusterIP";
        selector = labels;
        ports = record { name = "http"; port = 80; target_port = 8080 } ∷ [];
      };
    })

  unfoldable pub mutate_frontend_ingress : Ingress → Result Ingress
  unfolding class_or_keep
  mutate_frontend_ingress ing = do
    meta ← R.set_controller_reference cr.meta ing.meta
    ok (record ing {
      meta = record meta { labels = labels };
      spec = record ing.spec {
        ingress_class_name = class_or_keep cr.spec.ingress_class_name ing.spec.ingress_class_name;
        rules = frontend_rules cr;
      };
    })
