-- ===== src/Tests.antt =====
-- Resources and clusters for the tests: what the properties say of them, on runs in memory.
pub mod Runs
pub mod Refusals
pub mod Histories
pub mod Deletions
pub mod Objects
pub mod Labels
pub mod Builders
pub mod Startup
pub mod Heaps
pub mod Patches
use kubeshark_operator.Common.{ℕ, String, Bool, false, Option, none, some, List, [], ◌∷◌}
use kubeshark_operator.Kube.Meta.{ObjectMeta, NamespacedName, meta_named}
use kubeshark_operator.Kube.Object.{Ref}
use kubeshark_operator.Api.{KubesharkSpec, Kubeshark, key_of}
use kubeshark_operator.Names.{finalizer_name}
use kubeshark_operator.Runtime.{Runtime}
use kubeshark_operator.Memory.{memory}
use kubeshark_operator.Memory.Server.{World, set_resource}

-- `spec: {}`
abbrev pub empty_spec : KubesharkSpec
empty_spec = record {
  hub_image = "";
  frontend_image = "";
  hub_replicas = none;
  worker_image = "";
  namespace = "";
  ingress_host = "";
  ingress_class_name = "";
  ingress_name = "";
  service_account_hub = "";
  service_account_worker = "";
  hub_config_map_data = none;
  cluster_role_rules = [];
  cluster_role_name = "";
  cluster_role_binding_name = "";
  hub_deployment_name = "";
  hub_labels = [];
  hub_container_ports = [];
  worker_daemon_set_name = "";
  worker_labels = [];
  hub_service_name = "";
  hub_config_map_name = "";
  secret_kubeshark = record {
    license = "";
    scripting_env_json = "";
    oidc_client_id = "";
    oidc_client_secret = "";
  };
}

abbrev pub resource : String → String → List String → Option ℕ → Kubeshark
resource namespace name finalizers deleted = record {
  meta = record (meta_named name namespace) {
    uid = name;
    generation = 3;
    finalizers = finalizers;
    deletion_timestamp = deleted;
  };
  spec = empty_spec;
  status = record { conditions = []; observed_generation = 0 };
}

abbrev pub held : List String
held = finalizer_name ∷ []

-- An active resource, and a neighbour in its namespace.
abbrev pub demo : Kubeshark
demo = resource "tools" "demo" held none

abbrev pub second : Kubeshark
second = resource "tools" "second" held none

-- A resource that is being deleted.
abbrev pub leaving : Kubeshark
leaving = resource "tools" "demo" held (some 7)

abbrev no_resources : NamespacedName → Option Kubeshark
no_resources key = none

-- A cluster that holds one resource, and no objects.
abbrev pub holding : Kubeshark → World
holding cr = record {
  objects = λ k namespace name. none;
  resources = set_resource no_resources (key_of cr) (some cr);
}

-- A cluster that holds two.
abbrev pub holding_both : World
holding_both = record (holding demo) {
  resources = set_resource (holding demo).resources (key_of second) (some second);
}

abbrev pub allow : Ref → Bool
allow r = false

-- The server that allows every write.
abbrev pub permissive : Runtime
permissive = memory allow
