-- ===== src/Reconcile/Specified/Correct.antt =====
-- What the operator's own definitions want of the twelve objects is what is specified.
use kubeshark_operator.Common.{
  String, ◌==◌, List, [], ◌∷◌, ◌≡◌, ◌∙◌, refl, sym, ap, eq_iff, Bool-cases, inl, inr, some,
}
use kubeshark_operator.Kube.Object.{Ref, ObjectOf}
use kubeshark_operator.Kube.Pod.{ContainerPort}
use kubeshark_operator.Kube.Workload.{Deployment, DaemonSet}
use kubeshark_operator.Kube.Access.{ConfigMap, PolicyRule, ClusterRole, ClusterRoleBinding, Secret}
use kubeshark_operator.Kube.Network.{Service, Ingress}
use kubeshark_operator.Api.{Kubeshark}
use kubeshark_operator.Names.{
  component_labels, get_or_default_string, hub_replicas, worker_image, hub_service_name,
  hub_deployment_name, hub_config_map_name, worker_daemon_set_name, frontend_service_name,
  frontend_deployment_name, frontend_ingress_name, kubeshark_secret_name, hub_service_account_name,
  worker_service_account_name, cluster_role_name, cluster_role_binding_name,
}
use kubeshark_operator.Runtime.{Runtime}
use kubeshark_operator.Runtime.Wants.{Present, AllPresent}
use kubeshark_operator.Hub.Config.{default_hub_config_map_data}
use kubeshark_operator.Hub.Objects.{
  ports_or_default, hub_config_map_data, hub_container, hub_template,
}
use kubeshark_operator.Hub.Desired.{IsHubConfigMap, IsHubDeployment, IsHubService}
use kubeshark_operator.Rbac.Objects.{
  default_cluster_role_rules, rules_or_default, cluster_role_rules, binding_subjects,
  binding_role_ref,
}
use kubeshark_operator.Rbac.Correct.{IsKubesharkRole, IsKubesharkBinding}
use kubeshark_operator.Worker.Pods.{
  worker_common_env, worker_default_resources, worker_common_volume_mounts, tcp_probe,
  build_sniffer_container, build_tracer_container, build_worker_volumes, mount_bpf_container,
  build_worker_daemon_set_spec,
}
use kubeshark_operator.Worker.Correct.{IsWorkerDaemonSet}
use kubeshark_operator.Frontend.Objects.{frontend_env, frontend_template, frontend_rules}
use kubeshark_operator.Frontend.Desired.{IsFrontendDeployment, IsFrontendService, IsFrontendIngress}
use kubeshark_operator.Secret.Correct.{IsKubesharkSecret}
use kubeshark_operator.Reconcile.Wanted.{wants}
use kubeshark_operator.Reconcile.Specified.{given_or, list_or}
use kubeshark_operator.Reconcile.Specified.Pods.{hub_pods, port_8080}
use kubeshark_operator.Reconcile.Specified.Objects.{
  specified, SpecifiedConfigMap, SpecifiedHub, SpecifiedRole, SpecifiedBinding, SpecifiedWorker,
  SpecifiedHubService, SpecifiedFrontendService, SpecifiedFrontend, SpecifiedIngress,
  SpecifiedSecret, default_rules,
}

list_or-ports : (ps : List ContainerPort) → ports_or_default ps ≡ list_or ps (port_8080 ∷ [])
list_or-ports [] = refl
list_or-ports (p ∷ ps) = refl

list_or-rules : (rs : List PolicyRule) → rules_or_default rs ≡ list_or rs default_rules
unfolding default_cluster_role_rules
list_or-rules [] = refl
list_or-rules (r ∷ rs) = refl

given_or-empty : (s : String) → given_or s "" ≡ s
given_or-empty s = elim (Bool-cases (s == "")) [
  | inl empty ↦ rw empty (sym ((eq_iff s "").0 empty))
  | inr full ↦ rw full
]

module _ (cr : Kubeshark) where
  config_map-Specified :
      (o : ConfigMap) → IsHubConfigMap cr (component_labels cr) o → SpecifiedConfigMap cr o
  unfolding component_labels hub_config_map_data default_hub_config_map_data
  config_map-Specified o h = record {
    ours = h.child;
    given = λ d there. h.entries ∙ rw there;
    absent = λ nothing. h.entries ∙ rw nothing;
  }

  hub-Specified : (o : Deployment) → IsHubDeployment cr (component_labels cr) o → SpecifiedHub cr o
  unfolding component_labels hub_replicas hub_template hub_container get_or_default_string
      hub_service_account_name
  hub-Specified o h = record {
    ours = h.child;
    given = λ n there. h.replicas ∙ rw there;
    absent = λ nothing. h.replicas ∙ rw nothing;
    selector = h.selector;
    template = h.template ∙ ap (hub_pods cr) (list_or-ports cr.spec.hub_container_ports);
  }

  role-Specified :
      (o : ClusterRole) → IsKubesharkRole cr (component_labels cr) o → SpecifiedRole cr o
  unfolding component_labels cluster_role_rules default_cluster_role_rules
  role-Specified o h = record {
    labelled = h.labelled;
    rules = h.rules ∙ list_or-rules cr.spec.cluster_role_rules;
  }

  binding-Specified :
      (o : ClusterRoleBinding)
      → IsKubesharkBinding cr (component_labels cr) o
      → SpecifiedBinding cr o
  unfolding component_labels binding_subjects binding_role_ref cluster_role_name
      get_or_default_string hub_service_account_name worker_service_account_name
  binding-Specified o h = record {
    labelled = h.labelled;
    role_ref = h.role_ref;
    subjects = h.subjects;
  }

  hub_service-Specified :
      (o : Service) → IsHubService cr (component_labels cr) o → SpecifiedHubService cr o
  unfolding component_labels
  hub_service-Specified o h = record { ours = h.child; selector = h.selector; ports = h.ports }

  frontend_service-Specified :
      (o : Service) → IsFrontendService cr (component_labels cr) o → SpecifiedFrontendService cr o
  unfolding component_labels
  frontend_service-Specified o h = record {
    ours = h.child;
    type = h.type;
    selector = h.selector;
    ports = h.ports;
  }

  worker-Specified :
      (o : DaemonSet) → IsWorkerDaemonSet cr (component_labels cr) o → SpecifiedWorker cr o
  unfolding component_labels build_worker_daemon_set_spec worker_image get_or_default_string
      worker_service_account_name worker_common_env worker_default_resources
      worker_common_volume_mounts tcp_probe build_sniffer_container build_tracer_container
      build_worker_volumes mount_bpf_container
  worker-Specified o h = record { ours = h.child; spec = h.spec }

  frontend-Specified :
      (o : Deployment) → IsFrontendDeployment cr (component_labels cr) o → SpecifiedFrontend cr o
  unfolding component_labels frontend_template frontend_env get_or_default_string
  frontend-Specified o h = record {
    ours = h.child;
    replicas = h.replicas;
    selector = h.selector;
    template = h.template;
  }

  ingress-Specified :
      (o : Ingress) → IsFrontendIngress cr (component_labels cr) o → SpecifiedIngress cr o
  unfolding component_labels frontend_rules frontend_service_name
  ingress-Specified o h = record { ours = h.child; class = h.class; rules = h.rules }

  secret-Specified :
      (o : Secret) → IsKubesharkSecret cr (component_labels cr) o → SpecifiedSecret cr o
  unfolding component_labels get_or_default_string
  secret-Specified o h = record {
    ours = h.child;
    type = h.type;
    content = h.content;
    string_data = h.string_data;
    license = h.keys.license ∙ ap some (given_or-empty cr.spec.secret_kubeshark.license);
    scripting = h.keys.scripting_env;
    client_id = h.keys.oidc_client_id;
    client_secret = h.keys.oidc_client_secret;
  }

module _ (R : Runtime) (w : R.World) where
  respecified :
      {r : Ref} {D E : ObjectOf r.kind → Type 0}
      → ((o : ObjectOf r.kind) → D o → E o)
      → Present R w (record { ref = r; desired = D })
      → Present R w (record { ref = r; desired = E })
  respecified enough p = record {
    submitted = p.submitted;
    found = p.found;
    desired = enough p.submitted p.desired;
    stored = p.stored;
    realised = p.realised;
  }

  -- The operator's own description of the twelve objects implies the independent one.
  pub AllPresent-specified :
      (cr : Kubeshark) → AllPresent R w (wants cr) → AllPresent R w (specified cr)
  unfolding get_or_default_string component_labels hub_service_name hub_deployment_name
      hub_config_map_name worker_daemon_set_name frontend_service_name frontend_deployment_name
      frontend_ingress_name kubeshark_secret_name hub_service_account_name
      worker_service_account_name cluster_role_name cluster_role_binding_name
  AllPresent-specified cr (m, (a, (d, (s, (b, (r, (n, (k, (f, (t, (i, (x, _)))))))))))) = (
    respecified (config_map-Specified cr) m,
    (
      respecified (λ o h. h) a,
      (
        respecified (hub-Specified cr) d,
        (
          respecified (hub_service-Specified cr) s,
          (
            respecified (λ o h. h) b,
            (
              respecified (role-Specified cr) r,
              (
                respecified (binding-Specified cr) n,
                (
                  respecified (worker-Specified cr) k,
                  (
                    respecified (frontend-Specified cr) f,
                    (
                      respecified (frontend_service-Specified cr) t,
                      (
                        respecified (ingress-Specified cr) i,
                        (respecified (secret-Specified cr) x, tt),
                      ),
                    ),
                  ),
                ),
              ),
            ),
          ),
        ),
      ),
    ),
  )
