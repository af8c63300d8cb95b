-- ===== src/Wiring/Permissions.antt =====
-- internal/controller/rbac.go against hub.go and worker.go: the accounts of the pods are bound to
-- the cluster role.
use kubeshark_operator.Common.{String, ◌==◌, Bool, true, ◌&&◌, ◌≡◌, refl, exists, eq_refl, or-true}
use kubeshark_operator.Kube.Workload.{Deployment, DaemonSet}
use kubeshark_operator.Kube.Access.{ClusterRoleBinding, Subject}
use kubeshark_operator.Kube.Object.{Ref, same_ref, service_account, cluster_role}
use kubeshark_operator.Kube.Pod.{PodTemplateSpec}
use kubeshark_operator.Api.{Kubeshark}
use kubeshark_operator.Names.{component_labels}
use kubeshark_operator.Runtime.Wants.{refs}
use kubeshark_operator.Hub.Objects.{hub_template}
use kubeshark_operator.Hub.Desired.{IsHubDeployment}
use kubeshark_operator.Worker.Pods.{build_worker_daemon_set_spec}
use kubeshark_operator.Worker.Correct.{IsWorkerDaemonSet}
use kubeshark_operator.Rbac.Objects.{binding_subjects, binding_role_ref}
use kubeshark_operator.Rbac.Correct.{IsKubesharkBinding}
use kubeshark_operator.Reconcile.Wanted.{wants}

abbrev is_subject : String → String → Subject → Bool
is_subject namespace name s =
    s.kind == "ServiceAccount" && (s.namespace == namespace && s.name == name)

-- Is the object among the twelve?
abbrev pub is_wanted : Kubeshark → Ref → Bool
is_wanted cr r = exists (same_ref r) (refs (wants cr))

-- The service account of pods in the resource's namespace is one of the twelve objects, and a
-- subject of the binding; the role that the binding refers to is one of the twelve too.
pub record IsGranted (cr : Kubeshark) (b : ClusterRoleBinding) (pods : PodTemplateSpec)
    : Type 0 where
  pub account :
      is_wanted cr (record {
        kind = service_account;
        namespace = cr.meta.namespace;
        name = pods.spec.service_account_name;
      })
      ≡ true
  pub subject :
      exists (is_subject cr.meta.namespace pods.spec.service_account_name) b.subjects ≡ true
  pub role_kind : b.role_ref.kind ≡ "ClusterRole"
  pub role :
      is_wanted cr (record { kind = cluster_role; namespace = ""; name = b.role_ref.name }) ≡ true

-- If a Deployment, a DaemonSet and a binding are as the resource wants its hub, its worker and its
-- cluster role binding, then the service accounts of the hub's and of the worker's pods are among
-- the twelve objects and among the subjects of the binding, which refers to the cluster role among
-- the twelve.
pub pods-AreGranted :
    (cr : Kubeshark) (d : Deployment) (s : DaemonSet) (b : ClusterRoleBinding)
    → IsHubDeployment cr (component_labels cr) d
    → IsWorkerDaemonSet cr (component_labels cr) s
    → IsKubesharkBinding cr (component_labels cr) b
    → IsGranted cr b d.spec.template × IsGranted cr b s.spec.template
unfolding hub_template build_worker_daemon_set_spec binding_subjects binding_role_ref same_ref
pods-AreGranted cr d s b hub worker binding = (
  record {
    account = rw hub.template (simp eq_refl);
    subject = rw (hub.template, binding.subjects) (simp eq_refl);
    role_kind = rw binding.role_ref refl;
    role = rw binding.role_ref (simp eq_refl);
  },
  record {
    account = rw worker.spec (simp (eq_refl, or-true));
    subject = rw (worker.spec, binding.subjects) (simp (eq_refl, or-true));
    role_kind = rw binding.role_ref refl;
    role = rw binding.role_ref (simp eq_refl);
  },
)
