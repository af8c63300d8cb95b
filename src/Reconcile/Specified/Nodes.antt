-- ===== src/Reconcile/Specified/Nodes.antt =====
-- The pods of the worker that a resource asks for on each node.
use kubeshark_operator.Common.{String, Bool, true, false, Option, none, some, List, [], ◌∷◌}
use kubeshark_operator.Kube.Meta.{meta_named}
use kubeshark_operator.Kube.Pod.{
  EnvVar, Container, Volume, host_path, empty_dir, must_parse, binary_si, ResourceRequirements,
  Probe, VolumeMount, MountPropagation, host_to_container, bidirectional,
}
use kubeshark_operator.Kube.Workload.{DaemonSetSpec}
use kubeshark_operator.Api.{Kubeshark}
use kubeshark_operator.Reconcile.Specified.{given_or, object_labels, worker_account}
use kubeshark_operator.Reconcile.Specified.Pods.{variable, pod_name, pod_namespace}

abbrev mounted : String → String → Bool → Option MountPropagation → VolumeMount
mounted name path read_only propagation = record {
  name = name;
  mount_path = path;
  read_only = read_only;
  mount_propagation = propagation;
}

abbrev worker_environment : List EnvVar
worker_environment =
    pod_name
    ∷ pod_namespace
    ∷ variable "PROFILING_ENABLED" "false"
    ∷ variable "SENTRY_ENABLED" "false"
    ∷ variable "SENTRY_ENVIRONMENT" "production"
    ∷ []

abbrev worker_resources : ResourceRequirements
worker_resources = record {
  limits = ("memory", must_parse "5Gi") ∷ [];
  requests = ("cpu", must_parse "50m") ∷ ("memory", must_parse "50Mi") ∷ [];
}

abbrev worker_probe : Probe
worker_probe = record {
  initial_delay_seconds = 5;
  period_seconds = 5;
  failure_threshold = 3;
  success_threshold = 1;
  timeout_seconds = 1;
  tcp_socket_port = 48999;
}

abbrev sniffer : String → Container
sniffer image = record {
  name = "sniffer";
  image = image;
  image_pull_policy = "Always";
  command =
      "./worker" ∷ "-i" ∷ "any" ∷ "-port" ∷ "48999" ∷ "-metrics-port" ∷ "49100" ∷ "-packet-capture"
      ∷ "best" ∷ "warning" ∷ "-servicemesh" ∷ "-procfs" ∷ "/hostproc" ∷ "-enable-watchdog"
      ∷ "-resolution-strategy" ∷ "auto" ∷ "-staletimeout" ∷ "30" ∷ [];
  ports =
      record {
        name = "metrics";
        host_port = 0;
        container_port = 49100;
        protocol = "TCP";
        host_ip = "";
      }
      ∷ [];
  env = worker_environment;
  resources = worker_resources;
  security_context = some (record { privileged = some true });
  readiness_probe = some worker_probe;
  liveness_probe = some worker_probe;
  volume_mounts =
      mounted "proc" "/hostproc" true none
      ∷ mounted "sys" "/sys" true (some host_to_container)
      ∷ mounted "data" "/app/data" false none
      ∷ mounted "data" "/app/sniffer_data" false none
      ∷ [];
  other = [];
}

abbrev tracer : String → Container
tracer image = record {
  name = "tracer";
  image = image;
  image_pull_policy = "Always";
  command = "./tracer" ∷ "-procfs" ∷ "/hostproc" ∷ "-disable-tls-log" ∷ "warning" ∷ [];
  ports = [];
  env = worker_environment;
  resources = worker_resources;
  security_context = some (record { privileged = some true });
  readiness_probe = none;
  liveness_probe = none;
  volume_mounts =
      mounted "proc" "/hostproc" true none
      ∷ mounted "sys" "/sys" true (some host_to_container)
      ∷ mounted "data" "/app/data" false none
      ∷ mounted "data" "/app/tracer_data" false none
      ∷ mounted "os-release" "/etc/os-release" true none
      ∷ mounted "root" "/hostroot" true (some host_to_container)
      ∷ [];
  other = [];
}

abbrev mounter : String → Container
mounter image = record {
  name = "mount-bpf";
  image = image;
  image_pull_policy = "Always";
  command =
      "/bin/sh" ∷ "-c"
      ∷ "mkdir -p /sys/fs/bpf && mount | grep -q '/sys/fs/bpf' || mount -t bpf bpf /sys/fs/bpf"
      ∷ [];
  ports = [];
  env = [];
  resources = record { limits = []; requests = [] };
  security_context = some (record { privileged = some true });
  readiness_probe = none;
  liveness_probe = none;
  volume_mounts = mounted "sys" "/sys" false (some bidirectional) ∷ [];
  other = [];
}

abbrev worker_volumes : List Volume
worker_volumes =
    record { name = "proc"; source = host_path "/proc" }
    ∷ record { name = "sys"; source = host_path "/sys" }
    ∷ record { name = "lib-modules"; source = host_path "/lib/modules" }
    ∷ record { name = "os-release"; source = host_path "/etc/os-release" }
    ∷ record { name = "root"; source = host_path "/" }
    ∷ record { name = "data"; source = empty_dir (some (binary_si 5368709120)) }
    ∷ []

-- The worker's pods, on the network of every Linux node.
abbrev pub worker_pods : Kubeshark → DaemonSetSpec
worker_pods cr =
    let image = given_or cr.spec.worker_image "docker.io/kubeshark/worker:v52.3.82" in
    record {
      selector = some (object_labels cr);
      template = record {
        meta = record (meta_named "" "") { labels = object_labels cr };
        spec = record {
          init_containers = mounter image ∷ [];
          containers = sniffer image ∷ tracer image ∷ [];
          service_account_name = worker_account cr;
          host_network = true;
          dns_policy = "ClusterFirstWithHostNet";
          tolerations = record { operator = "Exists"; effect = "NoExecute" } ∷ [];
          affinity = some (record {
            required_node_selector_terms =
                record {
                  match_expressions =
                      record { key = "kubernetes.io/os"; operator = "In"; values = "linux" ∷ [] }
                      ∷ [];
                }
                ∷ [];
          });
          volumes = worker_volumes;
          other = [];
        };
      };
      other = [];
    }
