-- ===== src/Names.antt =====
-- internal/controller/helpers.go: defaults, labels and the names of the objects.
pub mod Laws
use kubeshark_operator.Common.{ℕ, String, ◌<>◌, ◌==◌, Option, none, some, [], ◌∷◌, if◌then◌else◌}
use kubeshark_operator.Common.Maps.{StringMap}
use kubeshark_operator.Api.{Kubeshark}

abbrev pub finalizer_name : String
finalizer_name = "kubeshark.opstreelabs.in/finalizer"

abbrev pub default_hub_image : String
default_hub_image = "docker.io/kubeshark/hub:v52.3.82"

abbrev pub default_worker_image : String
default_worker_image = "docker.io/kubeshark/worker:v52.3.82"

abbrev pub default_frontend_image : String
default_frontend_image = "docker.io/kubeshark/front:v52.3.82"

unfoldable pub get_or_default_string : String → String → String
get_or_default_string value default_value = if value == "" then default_value else value

unfoldable pub hub_replicas : Kubeshark → Option ℕ
hub_replicas cr = elim cr.spec.hub_replicas [ some n ↦ some n | none ↦ some 1 ]

unfoldable pub component_labels : Kubeshark → StringMap
component_labels cr =
    ("app.kubernetes.io/name", "kubeshark")
    ∷ ("app.kubernetes.io/instance", cr.meta.name)
    ∷ ("app.kubernetes.io/managed-by", "kubeshark-operator")
    ∷ []

unfoldable pub hub_service_name : Kubeshark → String
unfolding get_or_default_string
hub_service_name cr = get_or_default_string cr.spec.hub_service_name (cr.meta.name <> "-hub")

unfoldable pub hub_deployment_name : Kubeshark → String
unfolding get_or_default_string
hub_deployment_name cr = get_or_default_string cr.spec.hub_deployment_name (cr.meta.name <> "-hub")

unfoldable pub hub_config_map_name : Kubeshark → String
unfolding get_or_default_string
hub_config_map_name cr =
    get_or_default_string cr.spec.hub_config_map_name (cr.meta.name <> "-config")

unfoldable pub worker_daemon_set_name : Kubeshark → String
unfolding get_or_default_string
worker_daemon_set_name cr =
    get_or_default_string cr.spec.worker_daemon_set_name (cr.meta.name <> "-worker")

unfoldable pub frontend_service_name : Kubeshark → String
frontend_service_name cr = cr.meta.name <> "-frontend"

unfoldable pub frontend_deployment_name : Kubeshark → String
frontend_deployment_name cr = cr.meta.name <> "-frontend"

unfoldable pub frontend_ingress_name : Kubeshark → String
unfolding get_or_default_string
frontend_ingress_name cr =
    get_or_default_string cr.spec.ingress_name (cr.meta.name <> "-frontend-ingress")

unfoldable pub kubeshark_secret_name : Kubeshark → String
kubeshark_secret_name cr = cr.meta.name <> "-secret"

unfoldable pub hub_service_account_name : Kubeshark → String
unfolding get_or_default_string
hub_service_account_name cr =
    get_or_default_string cr.spec.service_account_hub (cr.meta.name <> "-hub")

unfoldable pub worker_service_account_name : Kubeshark → String
unfolding get_or_default_string
worker_service_account_name cr =
    get_or_default_string cr.spec.service_account_worker (cr.meta.name <> "-worker")

unfoldable pub cluster_role_name : Kubeshark → String
unfolding get_or_default_string
cluster_role_name cr =
    get_or_default_string cr.spec.cluster_role_name
      (((cr.meta.namespace <> "-") <> cr.meta.name) <> "-kubeshark")

unfoldable pub cluster_role_binding_name : Kubeshark → String
unfolding get_or_default_string
cluster_role_binding_name cr =
    get_or_default_string cr.spec.cluster_role_binding_name
      (((cr.meta.namespace <> "-") <> cr.meta.name) <> "-kubeshark")

unfoldable pub worker_image : Kubeshark → String
unfolding get_or_default_string
worker_image cr = get_or_default_string cr.spec.worker_image default_worker_image
