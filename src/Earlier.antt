-- ===== src/Earlier.antt =====
-- internal/controller/utils.go: builders that `Reconcile` no longer calls, against those that it
-- does.
pub mod Pods
pub mod Apply
pub mod Hub
pub mod Rbac
pub mod Frontend
pub mod Worker
pub mod Secret
pub mod Ownership
pub mod References
pub mod Stored
pub mod Cleanup
use kubeshark_operator.Common.{◌==◌, false, ◌≡◌, ◌≢◌, refl, eq-false_of_ne}
use kubeshark_operator.Common.Maps.{StringMap}
use kubeshark_operator.Kube.Workload.{DaemonSetSpec}
use kubeshark_operator.Api.{Kubeshark}
use kubeshark_operator.Names.{get_or_default_string, worker_image, worker_service_account_name}
use kubeshark_operator.Worker.Pods as Current
use kubeshark_operator.Earlier.Pods as Old

-- If the resource sets the worker's image and its service account, then the DaemonSet's spec that
-- the earlier code builds is the one that the operator builds now.
pub earlier-eq-current :
    (cr : Kubeshark) (labels : StringMap)
    → cr.spec.worker_image ≢ ""
    → cr.spec.service_account_worker ≢ ""
    → Old.build_worker_daemon_set_spec cr labels ≡ Current.build_worker_daemon_set_spec cr labels
unfolding Old.build_worker_daemon_set_spec Old.account_or_default Old.mount_bpf_container
    Old.build_sniffer_container Old.build_tracer_container Old.build_worker_volumes
    Old.get_common_env Old.get_default_resources Old.get_common_volume_mounts Old.get_tcp_probe
    Current.build_worker_daemon_set_spec Current.mount_bpf_container Current.build_sniffer_container
    Current.build_tracer_container Current.build_worker_volumes Current.worker_common_env
    Current.worker_default_resources Current.worker_common_volume_mounts Current.tcp_probe
    get_or_default_string worker_image worker_service_account_name
earlier-eq-current cr labels image account =
    rw
      (
        eq-false_of_ne cr.spec.worker_image "" image,
        eq-false_of_ne cr.spec.service_account_worker "" account,
      )
      refl
