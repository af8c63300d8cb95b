-- ===== src/Tests/Builders.antt =====
-- The earlier builders, on a cluster that stores what they made before.
use kubeshark_operator.Common.{ℕ, Option, none, some, [], ◌∷◌, ◌≡◌, refl, arith, eq_iff}
use kubeshark_operator.Common.Exec.{wrap_error}
use kubeshark_operator.Kube.Meta.{meta_named}
use kubeshark_operator.Kube.Workload.{Deployment}
use kubeshark_operator.Kube.Access.{ClusterRoleBinding, cluster_role_binding_of, secret_of}
use kubeshark_operator.Kube.Object.{Ref, ref_of, deployment, secret, same_kind}
use kubeshark_operator.Api.{Kubeshark}
use kubeshark_operator.Names.{component_labels}
use kubeshark_operator.Memory.Lawful.{memory-IsLawful}
use kubeshark_operator.Memory.Store.{put}
use kubeshark_operator.Memory.Server.{World, create_or_update}
use kubeshark_operator.Earlier.Apply.{applied}
use kubeshark_operator.Earlier.Hub.{
  hub_deployment_object, mutate_hub_deployment, create_or_update_hub_deployment,
}
use kubeshark_operator.Earlier.Frontend.{
  frontend_deployment_object, create_or_update_frontend_deployment,
}
use kubeshark_operator.Earlier.Rbac.{
  mutate_cluster_role_binding, dynamic_subjects, dynamic_role_ref,
}
use kubeshark_operator.Earlier.Ownership.{
  OwnersAdded, mutate-OwnersAdded, IsPlain, AgreesOnPlain, mutate-AgreesOnPlain,
}
use kubeshark_operator.Earlier.References.{
  RefersToApplied, mutate_cluster_role_binding-RefersToApplied,
}
use kubeshark_operator.Earlier.Stored.{
  StoredDeployment, KeepsDeployment, create_or_update_frontend_deployment-freezes,
  create_or_update_hub_deployment-keeps,
}
use kubeshark_operator.Tests.{allow, demo, holding, permissive, resource, held}

mutate-OwnersAdded_example : OwnersAdded permissive demo (component_labels demo)
mutate-OwnersAdded_example = mutate-OwnersAdded permissive demo (component_labels demo)

-- A resource for which the earlier functions did what the current ones do.
abbrev plain : Kubeshark
plain = record (resource "tools" "kubeshark" held none) {
  spec = record demo.spec {
    ingress_class_name = "nginx";
    worker_image = "worker:v1";
    service_account_worker = "sniffers";
  };
}

plain-IsPlain : IsPlain plain
plain-IsPlain = record {
  rules = refl;
  class = λ e. ground (arith, e, eq_iff "nginx" "");
  image = λ e. ground (arith, e, eq_iff "worker:v1" "");
  account = λ e. ground (arith, e, eq_iff "sniffers" "");
}

mutate-AgreesOnPlain_example : AgreesOnPlain permissive plain (component_labels plain)
mutate-AgreesOnPlain_example =
    mutate-AgreesOnPlain permissive plain (component_labels plain) plain-IsPlain

-- The Deployment of the resource as it was, and a resource with a new image.
abbrev old_frontend : Deployment
old_frontend = frontend_deployment_object demo []

abbrev upgraded : Kubeshark
upgraded = record demo { spec = record demo.spec { frontend_image = "front:v2" } }

abbrev with_deployment : Deployment → World
with_deployment d = record (holding demo) {
  objects = put deployment d.meta.namespace d.meta.name (some d) (holding demo).objects;
}

create_or_update_frontend_deployment-freezes_example :
    StoredDeployment permissive
      (create_or_update_frontend_deployment permissive upgraded [] (with_deployment old_frontend)).1
      (frontend_deployment_object upgraded [])
      (λ s. s ≡ old_frontend)
unfolding create_or_update create_or_update_frontend_deployment wrap_error applied put same_kind
    frontend_deployment_object
create_or_update_frontend_deployment-freezes_example =
    create_or_update_frontend_deployment-freezes permissive (memory-IsLawful allow) upgraded []
      (with_deployment old_frontend) old_frontend (some old_frontend, "created Frontend Deployment")
      refl refl

-- The hub's Deployment after a restart of its pods.
abbrev restarted : Deployment
restarted = record (hub_deployment_object demo) {
  meta = record (hub_deployment_object demo).meta { creation_timestamp = some 5 };
  spec = record (hub_deployment_object demo).spec {
    selector = some (("app", "hub") ∷ []);
    template = record (hub_deployment_object demo).spec.template {
      meta = record (hub_deployment_object demo).spec.template.meta {
        annotations = ("kubectl.kubernetes.io/restartedAt", "today") ∷ [];
      };
    };
  };
}

or_default : Option ℕ → ℕ → Option ℕ
or_default none n = some n
or_default (some m) n = some m

abbrev stored_hub : Option Deployment
stored_hub =
    permissive.stored
      (create_or_update_hub_deployment permissive demo [] or_default (with_deployment restarted)).1
      (ref_of deployment (hub_deployment_object demo))

create_or_update_hub_deployment-keeps_example :
    StoredDeployment permissive
      (create_or_update_hub_deployment permissive demo [] or_default (with_deployment restarted)).1
      (hub_deployment_object demo)
      (KeepsDeployment [] restarted)
unfolding create_or_update create_or_update_hub_deployment wrap_error applied put
    hub_deployment_object mutate_hub_deployment
create_or_update_hub_deployment-keeps_example =
    create_or_update_hub_deployment-keeps permissive (memory-IsLawful allow) demo []
      (with_deployment restarted) restarted (stored_hub, "created Deployment:") or_default 5 refl
      refl refl

abbrev renamed : Kubeshark
renamed = record demo { spec = record demo.spec { cluster_role_name = "own-role" } }

abbrev bound : ClusterRoleBinding
bound = cluster_role_binding_of (meta_named "kubeshark-cluster-role-binding" "")

abbrev bound_to_own_role : ClusterRoleBinding
bound_to_own_role = record bound {
  subjects = dynamic_subjects renamed;
  role_ref = dynamic_role_ref renamed;
}

mutate_cluster_role_binding-RefersToApplied_example :
    RefersToApplied renamed (component_labels renamed) bound_to_own_role []
unfolding mutate_cluster_role_binding
mutate_cluster_role_binding-RefersToApplied_example =
    mutate_cluster_role_binding-RefersToApplied renamed (component_labels renamed) [] bound
      bound_to_own_role refl

abbrev token : Ref
token = record { kind = secret; namespace = "elsewhere"; name = "token" }

abbrev with_token : World
with_token = record (holding demo) {
  objects =
      put secret "tools" "token" (some (secret_of (meta_named "token" "tools")))
        (holding demo).objects;
}
