-- ===== src/Reconcile/Parts.antt =====
-- The twelve calls of `CreateOrUpdate`, and that each step succeeds if the server accepts what its
-- calls submit and no object of it has another controller.
use kubeshark_operator.Common.{false, ◌++◌, List, [], ◌∷◌, ◌≡◌, refl, inr, Result, ok}
use kubeshark_operator.Common.Exec.{Exec, pure, ◌>>◌}
use kubeshark_operator.Kube.Object.{
  config_map, service_account, deployment, service, cluster_role, cluster_role_binding, daemon_set,
  ingress, secret, same_ref, Kind, ObjectOf, meta_of,
}
use kubeshark_operator.Api.{Kubeshark}
use kubeshark_operator.Kube.Meta.{meta_named}
use kubeshark_operator.Kube.Workload.{deployment_of, daemon_set_of}
use kubeshark_operator.Kube.Network.{service_of, ingress_of}
use kubeshark_operator.Kube.Access.{
  config_map_of, service_account_of, cluster_role_of, cluster_role_binding_of, secret_of,
}
use kubeshark_operator.Names.{
  component_labels, hub_config_map_name, hub_service_account_name, hub_deployment_name,
  hub_service_name, worker_service_account_name, cluster_role_name, cluster_role_binding_name,
  worker_daemon_set_name, frontend_deployment_name, frontend_service_name, frontend_ingress_name,
  kubeshark_secret_name,
}
use kubeshark_operator.Runtime.{Runtime}
use kubeshark_operator.Runtime.Laws.{IsLawful}
use kubeshark_operator.Runtime.Available.{
  IsAvailable, Application, IsAdoptable, has_controller, Progresses, Progresses-seq,
  Progresses-wrap_error, Progresses-apply, adopting,
}
use kubeshark_operator.Hub.{
  reconcile_hub, reconcile_hub_config_map, reconcile_hub_service_account, reconcile_hub_deployment,
  reconcile_hub_service,
}
use kubeshark_operator.Hub.Objects.{
  mutate_hub_config_map, mutate_hub_service_account, mutate_hub_deployment, mutate_hub_service,
}
use kubeshark_operator.Rbac.{
  reconcile_rbac, reconcile_worker_service_account, reconcile_cluster_role,
  reconcile_cluster_role_binding,
}
use kubeshark_operator.Rbac.Objects.{
  mutate_worker_service_account, mutate_cluster_role, mutate_cluster_role_binding,
}
use kubeshark_operator.Worker.{mutate_worker, reconcile_worker}
use kubeshark_operator.Frontend.{
  reconcile_frontend, reconcile_frontend_deployment, reconcile_frontend_service,
  reconcile_frontend_ingress,
}
use kubeshark_operator.Frontend.Objects.{
  mutate_frontend_deployment, mutate_frontend_service, mutate_frontend_ingress,
}
use kubeshark_operator.Secret.{mutate_secret, reconcile_secret}

module _ (R : Runtime) (cr : Kubeshark) where
  abbrev pub hub_applications : List Application
  hub_applications =
      record {
        kind = config_map;
        object = config_map_of (meta_named (hub_config_map_name cr) cr.meta.namespace);
        mutate = mutate_hub_config_map R cr (component_labels cr);
      }
      ∷ record {
        kind = service_account;
        object = service_account_of (meta_named (hub_service_account_name cr) cr.meta.namespace);
        mutate = mutate_hub_service_account R cr (component_labels cr);
      }
      ∷ record {
        kind = deployment;
        object = deployment_of (meta_named (hub_deployment_name cr) cr.meta.namespace);
        mutate = mutate_hub_deployment R cr (component_labels cr);
      }
      ∷ record {
        kind = service;
        object = service_of (meta_named (hub_service_name cr) cr.meta.namespace);
        mutate = mutate_hub_service R cr (component_labels cr);
      }
      ∷ []

  abbrev pub rbac_applications : List Application
  rbac_applications =
      record {
        kind = service_account;
        object = service_account_of (meta_named (worker_service_account_name cr) cr.meta.namespace);
        mutate = mutate_worker_service_account R cr (component_labels cr);
      }
      ∷ record {
        kind = cluster_role;
        object =
            cluster_role_of
              (record (meta_named (cluster_role_name cr) "") { labels = component_labels cr });
        mutate = mutate_cluster_role cr (component_labels cr);
      }
      ∷ record {
        kind = cluster_role_binding;
        object = cluster_role_binding_of (record (meta_named (cluster_role_binding_name cr) "") {
          labels = component_labels cr;
        });
        mutate = mutate_cluster_role_binding cr (component_labels cr);
      }
      ∷ []

  abbrev pub worker_applications : List Application
  worker_applications =
      record {
        kind = daemon_set;
        object = daemon_set_of (meta_named (worker_daemon_set_name cr) cr.meta.namespace);
        mutate = mutate_worker R cr (component_labels cr);
      }
      ∷ []

  abbrev pub frontend_applications : List Application
  frontend_applications =
      record {
        kind = deployment;
        object = deployment_of (meta_named (frontend_deployment_name cr) cr.meta.namespace);
        mutate = mutate_frontend_deployment R cr (component_labels cr);
      }
      ∷ record {
        kind = service;
        object = service_of (meta_named (frontend_service_name cr) cr.meta.namespace);
        mutate = mutate_frontend_service R cr (component_labels cr);
      }
      ∷ record {
        kind = ingress;
        object = ingress_of (meta_named (frontend_ingress_name cr) cr.meta.namespace);
        mutate = mutate_frontend_ingress R cr (component_labels cr);
      }
      ∷ []

  abbrev pub secret_applications : List Application
  secret_applications =
      record {
        kind = secret;
        object = secret_of (meta_named (kubeshark_secret_name cr) cr.meta.namespace);
        mutate = mutate_secret R cr (component_labels cr);
      }
      ∷ []

  -- The twelve calls, in the order of the steps.
  abbrev pub applications : List Application
  applications =
      hub_applications
      ++ (rbac_applications
          ++ (worker_applications ++ (frontend_applications ++ (secret_applications ++ []))))

module _ (R : Runtime) (L : IsLawful R) (A : IsAvailable R) (cr : Kubeshark) where
  abbrev Goes : List Application → Exec R.World (Unit {0}) → Type 0
  Goes apps m = Progresses R A cr.meta apps m

  -- An object that the resource comes to control.
  child-Goes :
      (k : Kind) (o : ObjectOf k) {f : ObjectOf k → Result (ObjectOf k)}
      → has_controller (meta_of k o) ≡ false
      → ((b : ObjectOf k) → IsAdoptable cr.meta (meta_of k b) → (s : ObjectOf k) × (f b ≡ ok s))
      → Goes
          (record { kind = k; object = o; mutate = f } ∷ [])
          (R.create_or_update k o f >> pure tt)
  child-Goes k o {f} fresh accepts = Progresses-apply R A cr.meta L.frames k o f (inr fresh) accepts

  pub reconcile_hub-Goes : Goes (hub_applications R cr) (reconcile_hub R cr (component_labels cr))
  unfolding reconcile_hub reconcile_hub_config_map reconcile_hub_service_account
      reconcile_hub_deployment reconcile_hub_service mutate_hub_config_map
      mutate_hub_service_account mutate_hub_deployment mutate_hub_service same_ref
  reconcile_hub-Goes =
      Progresses-seq R A cr.meta _ _ (_ ∷ []) _
        (child-Goes config_map _ refl λ b may. adopting R A cr.meta b.meta _ may)
        (Progresses-seq R A cr.meta _ _ (_ ∷ []) _
          (child-Goes service_account _ refl λ b may. adopting R A cr.meta b.meta _ may)
          (Progresses-seq R A cr.meta _ _ (_ ∷ []) _
            (Progresses-wrap_error R A cr.meta _ _ _
              (child-Goes deployment _ refl λ b may. adopting R A cr.meta b.meta _ may))
            (child-Goes service _ refl λ b may. adopting R A cr.meta b.meta _ may) refl)
          refl)
        refl

  -- The worker's service account; the cluster role and its binding have no controller.
  pub reconcile_rbac-Goes :
      Goes (rbac_applications R cr) (reconcile_rbac R cr (component_labels cr))
  unfolding reconcile_rbac reconcile_worker_service_account reconcile_cluster_role
      reconcile_cluster_role_binding mutate_worker_service_account mutate_cluster_role
      mutate_cluster_role_binding same_ref
  reconcile_rbac-Goes =
      Progresses-seq R A cr.meta _ _ (_ ∷ []) _
        (child-Goes service_account _ refl λ b may. adopting R A cr.meta b.meta _ may)
        (Progresses-seq R A cr.meta _ _ (_ ∷ []) _
          (Progresses-wrap_error R A cr.meta _ _ _ (
            child-Goes cluster_role _ {f = mutate_cluster_role cr (component_labels cr)} refl
              λ b may. (_, refl)))
          (Progresses-wrap_error R A cr.meta _ _ _ (
            child-Goes cluster_role_binding _
              {f = mutate_cluster_role_binding cr (component_labels cr)} refl λ b may. (_, refl)))
          refl)
        refl

  pub reconcile_worker-Goes :
      Goes (worker_applications R cr) (reconcile_worker R cr (component_labels cr))
  unfolding reconcile_worker mutate_worker
  reconcile_worker-Goes = child-Goes daemon_set _ refl λ b may. adopting R A cr.meta b.meta _ may

  pub reconcile_frontend-Goes :
      Goes (frontend_applications R cr) (reconcile_frontend R cr (component_labels cr))
  unfolding reconcile_frontend reconcile_frontend_deployment reconcile_frontend_service
      reconcile_frontend_ingress mutate_frontend_deployment mutate_frontend_service
      mutate_frontend_ingress same_ref
  reconcile_frontend-Goes =
      Progresses-seq R A cr.meta _ _ (_ ∷ []) _
        (Progresses-wrap_error R A cr.meta _ _ _
          (child-Goes deployment _ refl λ b may. adopting R A cr.meta b.meta _ may))
        (Progresses-seq R A cr.meta _ _ (_ ∷ []) _
          (child-Goes service _ refl λ b may. adopting R A cr.meta b.meta _ may)
          (child-Goes ingress _ refl λ b may. adopting R A cr.meta b.meta _ may) refl)
        refl

  pub reconcile_secret-Goes :
      Goes (secret_applications R cr) (reconcile_secret R cr (component_labels cr))
  unfolding reconcile_secret mutate_secret
  reconcile_secret-Goes = child-Goes secret _ refl λ b may. adopting R A cr.meta b.meta _ may
