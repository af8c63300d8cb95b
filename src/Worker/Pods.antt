-- ===== src/Worker/Pods.antt =====
-- internal/controller/worker.go: the pod template of the worker's DaemonSet.
use kubeshark_operator.Common.{ℕ, ◌*◌, String, true, some, List, [], ◌∷◌}
use kubeshark_operator.Common.Maps.{StringMap}
use kubeshark_operator.Kube.Meta.{meta_named}
use kubeshark_operator.Kube.Pod.{
  port_numbered, env, env_from_field, EnvVar, Container, container_named, Volume, host_path,
  empty_dir, must_parse, binary_si, ResourceRequirements, SecurityContext, Probe, VolumeMount,
  mount_at, host_to_container, bidirectional,
}
use kubeshark_operator.Kube.Workload.{DaemonSetSpec}
use kubeshark_operator.Api.{Kubeshark}
use kubeshark_operator.Names.{worker_image, worker_service_account_name}

abbrev privileged : SecurityContext
privileged = record { privileged = some true }

unfoldable pub worker_common_env : List EnvVar
worker_common_env =
    env_from_field "POD_NAME" "metadata.name"
    ∷ env_from_field "POD_NAMESPACE" "metadata.namespace"
    ∷ env "PROFILING_ENABLED" "false"
    ∷ env "SENTRY_ENABLED" "false"
    ∷ env "SENTRY_ENVIRONMENT" "production"
    ∷ []

unfoldable pub worker_default_resources : ResourceRequirements
worker_default_resources = record {
  limits = ("memory", must_parse "5Gi") ∷ [];
  requests = ("cpu", must_parse "50m") ∷ ("memory", must_parse "50Mi") ∷ [];
}

unfoldable pub worker_common_volume_mounts : List VolumeMount → List VolumeMount
worker_common_volume_mounts extra =
    record (mount_at "proc" "/hostproc") { read_only = true }
    ∷ record (mount_at "sys" "/sys") {
      read_only = true;
      mount_propagation = some host_to_container;
    }
    ∷ mount_at "data" "/app/data"
    ∷ extra

unfoldable pub tcp_probe : ℕ → Probe
tcp_probe port = record {
  initial_delay_seconds = 5;
  period_seconds = 5;
  failure_threshold = 3;
  success_threshold = 1;
  timeout_seconds = 1;
  tcp_socket_port = port;
}

unfoldable pub build_sniffer_container : String → Container
unfolding worker_common_env worker_default_resources worker_common_volume_mounts tcp_probe
build_sniffer_container img = record (container_named "sniffer" img) {
  image_pull_policy = "Always";
  command =
      "./worker" ∷ "-i" ∷ "any" ∷ "-port" ∷ "48999" ∷ "-metrics-port" ∷ "49100" ∷ "-packet-capture"
      ∷ "best" ∷ "warning" ∷ "-servicemesh" ∷ "-procfs" ∷ "/hostproc" ∷ "-enable-watchdog"
      ∷ "-resolution-strategy" ∷ "auto" ∷ "-staletimeout" ∷ "30" ∷ [];
  ports = record (port_numbered 49100) { name = "metrics"; protocol = "TCP" } ∷ [];
  env = worker_common_env;
  resources = worker_default_resources;
  security_context = some privileged;
  readiness_probe = some (tcp_probe 48999);
  liveness_probe = some (tcp_probe 48999);
  volume_mounts = worker_common_volume_mounts (mount_at "data" "/app/sniffer_data" ∷ []);
}

unfoldable pub build_tracer_container : String → Container
unfolding worker_common_env worker_default_resources worker_common_volume_mounts
build_tracer_container img = record (container_named "tracer" img) {
  image_pull_policy = "Always";
  command = "./tracer" ∷ "-procfs" ∷ "/hostproc" ∷ "-disable-tls-log" ∷ "warning" ∷ [];
  env = worker_common_env;
  resources = worker_default_resources;
  security_context = some privileged;
  volume_mounts = worker_common_volume_mounts (
      mount_at "data" "/app/tracer_data"
      ∷ record (mount_at "os-release" "/etc/os-release") { read_only = true }
      ∷ record (mount_at "root" "/hostroot") {
        read_only = true;
        mount_propagation = some host_to_container;
      }
      ∷ []);
}

unfoldable pub build_worker_volumes : List Volume
build_worker_volumes =
    record { name = "proc"; source = host_path "/proc" }
    ∷ record { name = "sys"; source = host_path "/sys" }
    ∷ record { name = "lib-modules"; source = host_path "/lib/modules" }
    ∷ record { name = "os-release"; source = host_path "/etc/os-release" }
    ∷ record { name = "root"; source = host_path "/" }
    ∷ record { name = "data"; source = empty_dir (some (binary_si (5 * 1024 * 1024 * 1024))) }
    ∷ []

unfoldable pub mount_bpf_container : String → Container
mount_bpf_container img = record (container_named "mount-bpf" img) {
  image_pull_policy = "Always";
  command =
      "/bin/sh" ∷ "-c"
      ∷ "mkdir -p /sys/fs/bpf && mount | grep -q '/sys/fs/bpf' || mount -t bpf bpf /sys/fs/bpf"
      ∷ [];
  security_context = some privileged;
  volume_mounts = record (mount_at "sys" "/sys") { mount_propagation = some bidirectional } ∷ [];
}

unfoldable pub build_worker_daemon_set_spec : Kubeshark → StringMap → DaemonSetSpec
unfolding mount_bpf_container build_sniffer_container build_tracer_container build_worker_volumes
build_worker_daemon_set_spec cr labels = record {
  selector = some labels;
  template = record {
    meta = record (meta_named "" "") { labels = labels };
    spec = record {
      init_containers = mount_bpf_container (worker_image cr) ∷ [];
      containers =
          build_sniffer_container (worker_image cr) ∷ build_tracer_container (worker_image cr) ∷ [];
      service_account_name = worker_service_account_name cr;
      host_network = true;
      dns_policy = "ClusterFirstWithHostNet";
      tolerations = record { operator = "Exists"; effect = "NoExecute" } ∷ [];
      affinity = some (record {
        required_node_selector_terms =
            record {
              match_expressions =
                  record { key = "kubernetes.io/os"; operator = "In"; values = "linux" ∷ [] } ∷ [];
            }
            ∷ [];
      });
      volumes = build_worker_volumes;
      other = [];
    };
  };
  other = [];
}
