-- ===== src/Earlier/Pods.antt =====
-- internal/controller/utils.go: the earlier pod template of the worker's DaemonSet.
use kubeshark_operator.Common.{ℕ, ◌*◌, String, ◌==◌, if◌then◌else◌, true, some, List, [], ◌∷◌}
use kubeshark_operator.Common.Maps.{StringMap}
use kubeshark_operator.Kube.Meta.{meta_named}
use kubeshark_operator.Kube.Pod.{
  port_numbered, env, env_from_field, EnvVar, Container, container_named, Volume, host_path,
  empty_dir, must_parse, binary_si, ResourceRequirements, SecurityContext, Probe, VolumeMount,
  mount_at, host_to_container, bidirectional,
}
use kubeshark_operator.Kube.Workload.{DaemonSetSpec}
use kubeshark_operator.Api.{Kubeshark}

-- `&corev1.SecurityContext{Privileged: &privileged}`
abbrev as_root : SecurityContext
as_root = record { privileged = some true }

unfoldable pub get_common_env : List EnvVar
get_common_env =
    env_from_field "POD_NAME" "metadata.name"
    ∷ env_from_field "POD_NAMESPACE" "metadata.namespace"
    ∷ env "PROFILING_ENABLED" "false"
    ∷ env "SENTRY_ENABLED" "false"
    ∷ env "SENTRY_ENVIRONMENT" "production"
    ∷ []

unfoldable pub get_default_resources : ResourceRequirements
get_default_resources = record {
  limits = ("memory", must_parse "5Gi") ∷ [];
  requests = ("cpu", must_parse "50m") ∷ ("memory", must_parse "50Mi") ∷ [];
}

unfoldable pub get_common_volume_mounts : List VolumeMount → List VolumeMount
get_common_volume_mounts extra =
    record (mount_at "proc" "/hostproc") { read_only = true }
    ∷ record (mount_at "sys" "/sys") {
      read_only = true;
      mount_propagation = some host_to_container;
    }
    ∷ mount_at "data" "/app/data"
    ∷ extra

unfoldable pub get_tcp_probe : ℕ → Probe
get_tcp_probe port = record {
  initial_delay_seconds = 5;
  period_seconds = 5;
  failure_threshold = 3;
  success_threshold = 1;
  timeout_seconds = 1;
  tcp_socket_port = port;
}

unfoldable pub build_sniffer_container : Kubeshark → Container
unfolding get_common_env get_default_resources get_common_volume_mounts get_tcp_probe
build_sniffer_container cr = record (container_named "sniffer" cr.spec.worker_image) {
  image_pull_policy = "Always";
  command =
      "./worker" ∷ "-i" ∷ "any" ∷ "-port" ∷ "48999" ∷ "-metrics-port" ∷ "49100" ∷ "-packet-capture"
      ∷ "best" ∷ "warning" ∷ "-servicemesh" ∷ "-procfs" ∷ "/hostproc" ∷ "-enable-watchdog"
      ∷ "-resolution-strategy" ∷ "auto" ∷ "-staletimeout" ∷ "30" ∷ [];
  ports = record (port_numbered 49100) { name = "metrics"; protocol = "TCP" } ∷ [];
  env = get_common_env;
  resources = get_default_resources;
  security_context = some as_root;
  readiness_probe = some (get_tcp_probe 48999);
  liveness_probe = some (get_tcp_probe 48999);
  volume_mounts = get_common_volume_mounts (mount_at "data" "/app/sniffer_data" ∷ []);
}

unfoldable pub build_tracer_container : Kubeshark → Container
unfolding get_common_env get_default_resources get_common_volume_mounts
build_tracer_container cr = record (container_named "tracer" cr.spec.worker_image) {
  image_pull_policy = "Always";
  command = "./tracer" ∷ "-procfs" ∷ "/hostproc" ∷ "-disable-tls-log" ∷ "warning" ∷ [];
  env = get_common_env;
  resources = get_default_resources;
  security_context = some as_root;
  volume_mounts = get_common_volume_mounts (
      mount_at "data" "/app/tracer_data"
      ∷ record (mount_at "os-release" "/etc/os-release") { read_only = true }
      ∷ record (mount_at "root" "/hostroot") {
        read_only = true;
        mount_propagation = some host_to_container;
      }
      ∷ []);
}

unfoldable pub build_worker_volumes : List Volume
build_worker_volumes =
    record { name = "proc"; source = host_path "/proc" }
    ∷ record { name = "sys"; source = host_path "/sys" }
    ∷ record { name = "lib-modules"; source = host_path "/lib/modules" }
    ∷ record { name = "os-release"; source = host_path "/etc/os-release" }
    ∷ record { name = "root"; source = host_path "/" }
    ∷ record { name = "data"; source = empty_dir (some (binary_si (5 * 1024 * 1024 * 1024))) }
    ∷ []

-- The first lines, on the service account.
unfoldable pub account_or_default : String → String
account_or_default account = if account == "" then "kubeshark-worker" else account

unfoldable pub mount_bpf_container : Kubeshark → Container
mount_bpf_container cr = record (container_named "mount-bpf" cr.spec.worker_image) {
  image_pull_policy = "Always";
  command =
      "/bin/sh" ∷ "-c"
      ∷ "mkdir -p /sys/fs/bpf && mount | grep -q '/sys/fs/bpf' || mount -t bpf bpf /sys/fs/bpf"
      ∷ [];
  security_context = some as_root;
  volume_mounts = record (mount_at "sys" "/sys") { mount_propagation = some bidirectional } ∷ [];
}

unfoldable pub build_worker_daemon_set_spec : Kubeshark → StringMap → DaemonSetSpec
unfolding account_or_default mount_bpf_container build_sniffer_container build_tracer_container
    build_worker_volumes
build_worker_daemon_set_spec cr labels = record {
  selector = some labels;
  template = record {
    meta = record (meta_named "" "") { labels = labels };
    spec = record {
      init_containers = mount_bpf_container cr ∷ [];
      containers = build_sniffer_container cr ∷ build_tracer_container cr ∷ [];
      service_account_name = account_or_default cr.spec.service_account_worker;
      host_network = true;
      dns_policy = "ClusterFirstWithHostNet";
      tolerations = record { operator = "Exists"; effect = "NoExecute" } ∷ [];
      affinity = some (record {
        required_node_selector_terms =
            record {
              match_expressions =
                  record { key = "kubernetes.io/os"; operator = "In"; values = "linux" ∷ [] } ∷ [];
            }
            ∷ [];
      });
      volumes = build_worker_volumes;
      other = [];
    };
  };
  other = [];
}
