-- ===== src/Earlier/Frontend.antt =====
-- internal/controller/utils.go: `createOrUpdateFrontendService`,
-- `createOrUpdateFrontendDeployment` and `createOrUpdateFrontendIngress`.
use kubeshark_operator.Common.{String, Option, some, List, [], ◌∷◌, Result, ok}
use kubeshark_operator.Common.Exec.{Exec, wrap_error}
use kubeshark_operator.Common.Maps.{StringMap}
use kubeshark_operator.Kube.Meta.{meta_named}
use kubeshark_operator.Kube.Pod.{
  port_numbered, env, EnvVar, container_named, pod_of, PodTemplateSpec,
}
use kubeshark_operator.Kube.Workload.{Deployment, deployment_of}
use kubeshark_operator.Kube.Network.{Service, service_of, Ingress, ingress_of, IngressRule}
use kubeshark_operator.Kube.Object.{deployment, service, ingress}
use kubeshark_operator.Api.{Kubeshark}
use kubeshark_operator.Names.{get_or_default_string}
use kubeshark_operator.Runtime.{Runtime}
use kubeshark_operator.Earlier.Apply.{meta_labelled, applied}

unfoldable pub env_variables : List EnvVar
env_variables =
    env "REACT_APP_DEFAULT_FILTER" "{}"
    ∷ env "REACT_APP_AUTH_ENABLED" "false"
    ∷ env "REACT_APP_AUTH_TYPE" "none"
    ∷ env "REACT_APP_AUTH_SAML_IDP_METADATA_URL" "https://example.com"
    ∷ env "REACT_APP_TIMEZONE" "IST"
    ∷ env "REACT_APP_REPLAY_DISABLED" "false"
    ∷ env "REACT_APP_RECORDING_DISABLED" "false"
    ∷ env "REACT_APP_SCRIPTING_DISABLED" "false"
    ∷ env "REACT_APP_TARGETED_PODS_UPDATE_DISABLED" "false"
    ∷ env "REACT_APP_BPF_OVERRIDE_DISABLED" "false"
    ∷ env "REACT_APP_CLOUD_LICENSE_ENABLED" "false"
    ∷ env "REACT_APP_STOP_TRAFFIC_CAPTURING_DISABLED" "false"
    ∷ env "REACT_APP_SUPPORT_CHAT_ENABLED" "false"
    ∷ env "REACT_APP_DISSECTORS_UPDATING_ENABLED" "false"
    ∷ env "REACT_APP_SENTRY_ENABLED" "false"
    ∷ []

-- The `Rules` of the Ingress.
unfoldable pub ingress_rules : Kubeshark → List IngressRule
ingress_rules cr =
    record {
      host = cr.spec.ingress_host;
      http_paths =
          record {
            path = "/";
            path_type = some "ImplementationSpecific";
            backend = some (record { name = "kubeshark-frontend-service"; port_number = 80 });
          }
          ∷ [];
    }
    ∷ []

unfoldable pub mutate_frontend_service : StringMap → Service → Result Service
mutate_frontend_service labels svc = ok (record svc {
  spec = record svc.spec {
    selector = labels;
    ports = record { name = "http"; port = 80; target_port = 8080 } ∷ [];
    type = "ClusterIP";
  };
})

module _ (cr : Kubeshark) (labels : StringMap) where
  unfoldable pub frontend_service_object : Service
  frontend_service_object =
      service_of (meta_labelled "kubeshark-frontend-service" cr.meta.namespace labels)

  unfoldable pub frontend_template : PodTemplateSpec
  unfolding env_variables get_or_default_string
  frontend_template = record {
    meta = record (meta_named "" "") { labels = labels };
    spec = pod_of (
        record (container_named "frontend"
          (get_or_default_string cr.spec.frontend_image "docker.io/kubeshark/front:v52.3.82")) {
            ports = port_numbered 8080 ∷ [];
            env = env_variables;
          }
        ∷ []);
  }

  -- The whole Deployment: the mutate function does nothing.
  unfoldable pub frontend_deployment_object : Deployment
  unfolding frontend_template
  frontend_deployment_object =
      record (deployment_of
        (meta_labelled "kubeshark-frontend-deployment" cr.meta.namespace labels)) {
          spec = record {
            replicas = some 1;
            selector = some labels;
            template = frontend_template;
            other = [];
          };
        }

  unfoldable pub frontend_ingress_object : Ingress
  frontend_ingress_object =
      ingress_of (meta_labelled "kubeshark-frontend-ingress" cr.meta.namespace labels)

  -- `IngressClassName = &cr.Spec.IngressClassName`, also where that is empty.
  unfoldable pub mutate_frontend_ingress : Ingress → Result Ingress
  unfolding ingress_rules
  mutate_frontend_ingress ing = ok (record ing {
    meta = record ing.meta { labels = labels };
    spec = record ing.spec {
      ingress_class_name = some cr.spec.ingress_class_name;
      rules = ingress_rules cr;
    };
  })

module _ (R : Runtime) (cr : Kubeshark) (labels : StringMap) where
  unfoldable pub create_or_update_frontend_service : Exec R.World (Option Service × String)
  create_or_update_frontend_service = wrap_error "failed to create or update Frontend Service" (
      applied R service (frontend_service_object cr labels) (mutate_frontend_service labels)
        " Frontend Service")

  unfoldable pub create_or_update_frontend_deployment : Exec R.World (Option Deployment × String)
  create_or_update_frontend_deployment =
      wrap_error "failed to create or update Frontend Deployment" (
        applied R deployment (frontend_deployment_object cr labels) (λ dep. ok dep)
          " Frontend Deployment")

  unfoldable pub create_or_update_frontend_ingress : Exec R.World (Option Ingress × String)
  create_or_update_frontend_ingress =
      applied R ingress (frontend_ingress_object cr labels) (mutate_frontend_ingress cr labels)
        " Frontend Ingress"
