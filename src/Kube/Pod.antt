-- ===== src/Kube/Pod.antt =====
-- `corev1.PodTemplateSpec` and what it is made of.
use kubeshark_operator.Common.{ℕ, String, Bool, false, Option, none, some, List, []}
use kubeshark_operator.Kube.Meta.{ObjectMeta, Untouched}

pub record ContainerPort : Type 0 where
  pub name : String
  pub host_port : ℕ
  pub container_port : ℕ
  pub protocol : String
  pub host_ip : String

-- `ContainerPort{ContainerPort: port}`
abbrev pub port_numbered : ℕ → ContainerPort
port_numbered port = record {
  name = "";
  host_port = 0;
  container_port = port;
  protocol = "";
  host_ip = "";
}

-- `EnvVarSource{FieldRef: &ObjectFieldSelector{FieldPath: path}}`
pub data EnvVarSource : Type 0 where
  field_ref : String → EnvVarSource

pub record EnvVar : Type 0 where
  pub name : String
  pub value : String
  pub value_from : Option EnvVarSource

-- `EnvVar{Name: name, Value: value}`
abbrev pub env : String → String → EnvVar
env name value = record { name = name; value = value; value_from = none }

-- `EnvVar{Name: name, ValueFrom: <the field at the path>}`
abbrev pub env_from_field : String → String → EnvVar
env_from_field name path = record { name = name; value = ""; value_from = some (field_ref path) }

-- What `resource.MustParse` and `resource.NewQuantity` are given.
pub data Quantity : Type 0 where
  must_parse : String → Quantity
  binary_si : ℕ → Quantity

pub record ResourceRequirements : Type 0 where
  pub limits : List (String × Quantity)
  pub requests : List (String × Quantity)

pub record SecurityContext : Type 0 where
  pub privileged : Option Bool

-- A probe that opens a TCP connection.
pub record Probe : Type 0 where
  pub initial_delay_seconds : ℕ
  pub period_seconds : ℕ
  pub failure_threshold : ℕ
  pub success_threshold : ℕ
  pub timeout_seconds : ℕ
  pub tcp_socket_port : ℕ

pub data MountPropagation : Type 0 where
  host_to_container bidirectional : MountPropagation

pub record VolumeMount : Type 0 where
  pub name : String
  pub mount_path : String
  pub read_only : Bool
  pub mount_propagation : Option MountPropagation

-- `VolumeMount{Name: name, MountPath: path}`
abbrev pub mount_at : String → String → VolumeMount
mount_at name path = record {
  name = name;
  mount_path = path;
  read_only = false;
  mount_propagation = none;
}

pub data VolumeSource : Type 0 where
  host_path : String → VolumeSource
  empty_dir : Option Quantity → VolumeSource

pub record Volume : Type 0 where
  pub name : String
  pub source : VolumeSource

pub record Container : Type 0 where
  pub name : String
  pub image : String
  pub image_pull_policy : String
  pub command : List String
  pub ports : List ContainerPort
  pub env : List EnvVar
  pub resources : ResourceRequirements
  pub security_context : Option SecurityContext
  pub readiness_probe : Option Probe
  pub liveness_probe : Option Probe
  pub volume_mounts : List VolumeMount
  pub other : Untouched

-- `Container{Name: name, Image: image}`
abbrev pub container_named : String → String → Container
container_named name image = record {
  name = name;
  image = image;
  image_pull_policy = "";
  command = [];
  ports = [];
  env = [];
  resources = record { limits = []; requests = [] };
  security_context = none;
  readiness_probe = none;
  liveness_probe = none;
  volume_mounts = [];
  other = [];
}

pub record Toleration : Type 0 where
  pub operator : String
  pub effect : String

pub record NodeSelectorRequirement : Type 0 where
  pub key : String
  pub operator : String
  pub values : List String

pub record NodeSelectorTerm : Type 0 where
  pub match_expressions : List NodeSelectorRequirement

-- An affinity that only has node terms required during scheduling.
pub record Affinity : Type 0 where
  pub required_node_selector_terms : List NodeSelectorTerm

pub record PodSpec : Type 0 where
  pub init_containers : List Container
  pub containers : List Container
  pub service_account_name : String
  pub host_network : Bool
  pub dns_policy : String
  pub tolerations : List Toleration
  pub affinity : Option Affinity
  pub volumes : List Volume
  pub other : Untouched

-- `PodSpec{Containers: containers}`
abbrev pub pod_of : List Container → PodSpec
pod_of containers = record {
  init_containers = [];
  containers = containers;
  service_account_name = "";
  host_network = false;
  dns_policy = "";
  tolerations = [];
  affinity = none;
  volumes = [];
  other = [];
}

pub record PodTemplateSpec : Type 0 where
  pub meta : ObjectMeta
  pub spec : PodSpec

-- A template of a fresh workload.
abbrev pub no_template : ObjectMeta → PodTemplateSpec
no_template meta = record { meta = meta; spec = pod_of [] }
