-- ===== src/Tests/Objects.antt =====
-- Objects as a resource wants them.
use kubeshark_operator.Common.{true, some, [], ◌∷◌, refl, arith, eq_iff}
use kubeshark_operator.Kube.Meta.{ObjectMeta, meta_named}
use kubeshark_operator.Kube.Workload.{Deployment, deployment_of, daemon_set_of}
use kubeshark_operator.Kube.Network.{Service, service_of}
use kubeshark_operator.Api.{Kubeshark}
use kubeshark_operator.Names.{component_labels, hub_replicas}
use kubeshark_operator.Runtime.Owned.{IsChild}
use kubeshark_operator.Hub.Objects.{hub_template}
use kubeshark_operator.Frontend.Objects.{frontend_template}
use kubeshark_operator.Worker.Pods.{build_worker_daemon_set_spec}
use kubeshark_operator.Selection.{HasObjects}
use kubeshark_operator.Kube.Access.{ClusterRoleBinding}
use kubeshark_operator.Kube.Network.{Ingress, ingress_of}
use kubeshark_operator.Rbac.Objects.{binding_subjects, binding_role_ref}
use kubeshark_operator.Frontend.Objects.{frontend_rules}
use kubeshark_operator.Frontend.Desired.{IsFrontendIngress}

-- Metadata of an object that the resource controls.
abbrev pub child_meta : Kubeshark → ObjectMeta
child_meta cr = record (meta_named "" "") {
  labels = component_labels cr;
  owner_references =
      record { kind = "Kubeshark"; name = cr.meta.name; uid = cr.meta.uid; controller = true } ∷ [];
}

abbrev pub some_deployment : Kubeshark → Deployment
some_deployment cr = deployment_of (child_meta cr)

abbrev pub some_service : Kubeshark → Service
some_service cr = service_of (child_meta cr)

pub child_meta-IsChild : (cr : Kubeshark) → IsChild cr (component_labels cr) (child_meta cr)
child_meta-IsChild cr = record {
  controlled = ground (arith, eq_iff cr.meta.uid cr.meta.uid);
  labelled = refl;
}

abbrev pub objects_of : (cr : Kubeshark) → HasObjects cr
objects_of cr = record {
  hub = record (some_deployment cr) {
    spec = record {
      replicas = hub_replicas cr;
      selector = some (component_labels cr);
      template = hub_template cr (component_labels cr);
      other = [];
    };
  };
  hub_service = record (some_service cr) {
    spec = record {
      type = "ClusterIP";
      selector = component_labels cr;
      ports = record { name = ""; port = 80; target_port = 8080 } ∷ [];
      other = [];
    };
  };
  frontend = record (some_deployment cr) {
    spec = record {
      replicas = some 1;
      selector = some (component_labels cr);
      template = frontend_template cr (component_labels cr);
      other = [];
    };
  };
  frontend_service = record (some_service cr) {
    spec = record {
      type = "ClusterIP";
      selector = component_labels cr;
      ports = record { name = "http"; port = 80; target_port = 8080 } ∷ [];
      other = [];
    };
  };
  worker = record (daemon_set_of (child_meta cr)) {
    spec = build_worker_daemon_set_spec cr (component_labels cr);
  };
  is_hub = record {
    child = child_meta-IsChild cr;
    replicas = refl;
    selector = refl;
    template = refl;
  };
  is_hub_service = record { child = child_meta-IsChild cr; selector = refl; ports = refl };
  is_frontend = record {
    child = child_meta-IsChild cr;
    replicas = refl;
    selector = refl;
    template = refl;
  };
  is_frontend_service = record {
    child = child_meta-IsChild cr;
    type = refl;
    selector = refl;
    ports = refl;
  };
  is_worker = record { child = child_meta-IsChild cr; spec = refl };
}

abbrev pub binding_of : Kubeshark → ClusterRoleBinding
binding_of cr = record {
  meta = record (meta_named "" "") { labels = component_labels cr };
  subjects = binding_subjects cr;
  role_ref = binding_role_ref cr;
}

-- The class is always written here.
abbrev pub ingress_of_frontend : Kubeshark → Ingress
ingress_of_frontend cr = record (ingress_of (child_meta cr)) {
  spec = record {
    ingress_class_name = some cr.spec.ingress_class_name;
    rules = frontend_rules cr;
    other = [];
  };
}

pub ingress-IsFrontendIngress :
    (cr : Kubeshark) → IsFrontendIngress cr (component_labels cr) (ingress_of_frontend cr)
ingress-IsFrontendIngress cr = record {
  child = child_meta-IsChild cr;
  class = λ named. refl;
  rules = refl;
}
