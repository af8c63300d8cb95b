-- ===== src/Worker.antt =====
-- internal/controller/worker.go: `reconcileWorker`.
pub mod Pods
pub mod Correct
use kubeshark_operator.Common.{Result, ok}
use kubeshark_operator.Common.Outcome
use kubeshark_operator.Common.Exec.{Exec, pure, ◌>>=◌, ◌>>◌}
use kubeshark_operator.Common.Maps.{StringMap}
use kubeshark_operator.Kube.Meta.{meta_named}
use kubeshark_operator.Kube.Workload.{DaemonSet, daemon_set_of}
use kubeshark_operator.Kube.Object.{daemon_set}
use kubeshark_operator.Api.{Kubeshark}
use kubeshark_operator.Names.{worker_daemon_set_name}
use kubeshark_operator.Runtime.{Runtime}
use kubeshark_operator.Worker.Pods.{build_worker_daemon_set_spec}

module _ (R : Runtime) (cr : Kubeshark) (labels : StringMap) where
  unfoldable pub mutate_worker : DaemonSet → Result DaemonSet
  mutate_worker ds = Outcome.◌>>=◌ (R.set_controller_reference cr.meta ds.meta) λ meta.
      ok (record ds {
        meta = record meta { labels = labels };
        spec = build_worker_daemon_set_spec cr labels;
      })

  unfoldable pub reconcile_worker : Exec R.World (Unit {0})
  reconcile_worker = do
    R.create_or_update daemon_set
        (daemon_set_of (meta_named (worker_daemon_set_name cr) cr.meta.namespace)) mutate_worker
    pure tt
