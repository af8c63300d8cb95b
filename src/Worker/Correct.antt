-- ===== src/Worker/Correct.antt =====
-- What the worker's DaemonSet should be, and that `reconcileWorker` leaves it so.
use kubeshark_operator.Common.{◌≡◌, refl, subst, List, [], ◌∷◌, ok}
use kubeshark_operator.Common.Maps.{StringMap}
use kubeshark_operator.Kube.Object.{daemon_set}
use kubeshark_operator.Kube.Workload.{DaemonSet}
use kubeshark_operator.Api.{Kubeshark}
use kubeshark_operator.Names.{worker_daemon_set_name}
use kubeshark_operator.Runtime.{Runtime}
use kubeshark_operator.Runtime.Laws.{IsLawful}
use kubeshark_operator.Runtime.Owned.{IsChild, owned}
use kubeshark_operator.Runtime.Wants.{Want, Implements, Implements-apply}
use kubeshark_operator.Worker.Pods.{build_worker_daemon_set_spec}
use kubeshark_operator.Worker.{mutate_worker, reconcile_worker}

module _ (cr : Kubeshark) (labels : StringMap) where
  pub record IsWorkerDaemonSet (o : DaemonSet) : Type 0 where
    pub child : IsChild cr labels o.meta
    pub spec : o.spec ≡ build_worker_daemon_set_spec cr labels

  abbrev pub worker_wants : List Want
  worker_wants =
      record {
        ref = record {
          kind = daemon_set;
          namespace = cr.meta.namespace;
          name = worker_daemon_set_name cr;
        };
        desired = IsWorkerDaemonSet;
      }
      ∷ []

module _ (R : Runtime) (L : IsLawful R) (cr : Kubeshark) (labels : StringMap) where
  mutate_worker-IsWorkerDaemonSet :
      (b s : DaemonSet) → mutate_worker R cr labels b ≡ ok s → IsWorkerDaemonSet cr labels s
  unfolding mutate_worker
  mutate_worker-IsWorkerDaemonSet b s h =
      let (m', made, child, _) = owned R L.utilities cr labels b.meta _ s h in
      subst (IsWorkerDaemonSet cr labels) made (record { child = child; spec = refl })

  pub reconcile_worker-Implements :
      Implements R (reconcile_worker R cr labels) (worker_wants cr labels)
  unfolding reconcile_worker
  reconcile_worker-Implements =
      Implements-apply R L.frames L.effects daemon_set _ _ _ mutate_worker-IsWorkerDaemonSet
