-- ===== src/Earlier/Worker.antt =====
-- internal/controller/utils.go: `createOrUpdateWorkerDaemonSet`.
use kubeshark_operator.Common.{String, ◌==◌, Option, Result, ok, if◌then◌else◌}
use kubeshark_operator.Common.Exec.{Exec}
use kubeshark_operator.Common.Maps.{StringMap}
use kubeshark_operator.Kube.Meta.{meta_named}
use kubeshark_operator.Kube.Workload.{DaemonSet, daemon_set_of}
use kubeshark_operator.Kube.Object.{daemon_set}
use kubeshark_operator.Api.{Kubeshark}
use kubeshark_operator.Runtime.{Runtime}
use kubeshark_operator.Earlier.Apply.{applied}
use kubeshark_operator.Earlier.Pods.{build_worker_daemon_set_spec}

-- The spec's namespace, or else that of the resource.
unfoldable pub worker_namespace : Kubeshark → String
worker_namespace cr = if cr.spec.namespace == "" then cr.meta.namespace else cr.spec.namespace

unfoldable pub worker_daemon_set_object : Kubeshark → DaemonSet
unfolding worker_namespace
worker_daemon_set_object cr =
    daemon_set_of (meta_named "kubeshark-worker-daemonset" (worker_namespace cr))

unfoldable pub mutate_worker_daemon_set : Kubeshark → StringMap → DaemonSet → Result DaemonSet
mutate_worker_daemon_set cr labels ds = ok (record ds {
  meta = record ds.meta { labels = labels };
  spec = build_worker_daemon_set_spec cr labels;
})

unfoldable pub create_or_update_worker_daemon_set :
    (R : Runtime) → Kubeshark → StringMap → Exec R.World (Option DaemonSet × String)
create_or_update_worker_daemon_set R cr labels =
    applied R daemon_set (worker_daemon_set_object cr) (mutate_worker_daemon_set cr labels) ""
