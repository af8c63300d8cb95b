-- ===== src/Api.antt =====
-- api/v1beta1/kubeshark_types.go: the custom resource. `hub_replicas`, `hub_config_map_data` are
-- `none` for a nil pointer and a nil map. The CRD admits no negative replica count.
use kubeshark_operator.Common.{ℕ, String, Option, List}
use kubeshark_operator.Common.Maps.{StringMap}
use kubeshark_operator.Kube.Meta.{ObjectMeta, Condition, NamespacedName}
use kubeshark_operator.Kube.Pod.{ContainerPort}
use kubeshark_operator.Kube.Access.{PolicyRule}

pub record SecretKubesharkSpec : Type 0 where
  pub license : String
  pub scripting_env_json : String
  pub oidc_client_id : String
  pub oidc_client_secret : String

pub record KubesharkSpec : Type 0 where
  pub hub_image : String
  pub frontend_image : String
  pub hub_replicas : Option ℕ
  pub worker_image : String
  pub namespace : String
  pub ingress_host : String
  pub ingress_class_name : String
  pub ingress_name : String
  pub service_account_hub : String
  pub service_account_worker : String
  pub hub_config_map_data : Option StringMap
  pub cluster_role_rules : List PolicyRule
  pub cluster_role_name : String
  pub cluster_role_binding_name : String
  pub hub_deployment_name : String
  pub hub_labels : StringMap
  pub hub_container_ports : List ContainerPort
  pub worker_daemon_set_name : String
  pub worker_labels : StringMap
  pub hub_service_name : String
  pub hub_config_map_name : String
  pub secret_kubeshark : SecretKubesharkSpec

pub record KubesharkStatus : Type 0 where
  pub conditions : List Condition
  pub observed_generation : ℕ

pub record Kubeshark : Type 0 where
  pub meta : ObjectMeta
  pub spec : KubesharkSpec
  pub status : KubesharkStatus

-- `client.ObjectKeyFromObject(cr)`
abbrev pub key_of : Kubeshark → NamespacedName
key_of cr = record { namespace = cr.meta.namespace; name = cr.meta.name }
