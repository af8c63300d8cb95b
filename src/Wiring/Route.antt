-- ===== src/Wiring/Route.antt =====
-- internal/controller/frontend.go: from the Ingress to the frontend's pods.
use Prim.Native.Nat.{Ordering, compare}
use kubeshark_operator.Common.{
  String, ◌==◌, Bool, true, false, ◌&&◌, Option, none, some, [], ◌∷◌, ◌≡◌, refl, every, exists,
  eq_refl, ℕ,
}
use kubeshark_operator.Common.Maps.{selects}
use kubeshark_operator.Kube.Pod.{Container, PodTemplateSpec}
use kubeshark_operator.Kube.Workload.{Deployment}
use kubeshark_operator.Kube.Network.{
  Service, ServicePort, Ingress, IngressRule, HttpIngressPath, ServiceBackend,
}
use kubeshark_operator.Api.{Kubeshark}
use kubeshark_operator.Names.{component_labels, frontend_service_name}
use kubeshark_operator.Frontend.Objects.{frontend_template, frontend_rules}
use kubeshark_operator.Frontend.Desired.{IsFrontendDeployment, IsFrontendService, IsFrontendIngress}

-- Are two port numbers equal?
abbrev pub is_port : ℕ → ℕ → Bool
is_port a b = elim (compare a b) [ Ordering.eq ↦ true | _ ↦ false ]

abbrev pub listens_on : PodTemplateSpec → ℕ → Bool
listens_on pods port =
    exists (λ (c : Container). exists (λ p. is_port p.container_port port) c.ports)
      pods.spec.containers

abbrev leads_to : Service → PodTemplateSpec → Option ServiceBackend → String → Bool
leads_to svc pods none name = false
leads_to svc pods (some b) name =
    b.name == name
    && exists (λ (p : ServicePort). is_port p.port b.port_number && listens_on pods p.target_port)
        svc.spec.ports

-- Every path of every rule names the Service, at a port of it whose target is a port of the pods.
abbrev is_served : Ingress → Service → PodTemplateSpec → String → Bool
is_served i svc pods name =
    every
      (λ (r : IngressRule).
        every (λ (p : HttpIngressPath). leads_to svc pods p.backend name) r.http_paths)
      i.spec.rules

pub record IsRouted (cr : Kubeshark) (i : Ingress) (svc : Service) (d : Deployment) : Type 0 where
  pub served : is_served i svc d.spec.template (frontend_service_name cr) ≡ true
  pub selected : selects svc.spec.selector d.spec.template.meta.labels ≡ true
  pub host : (r : IngressRule) × (i.spec.rules ≡ r ∷ []) × (r.host ≡ cr.spec.ingress_host)

-- If an Ingress, a Service and a Deployment are as the resource wants those of its frontend, then
-- the one rule of the Ingress is for the resource's host, each of its paths leads to a port of the
-- frontend Service whose target port is one of the Deployment's pods, and the Service selects
-- those pods.
pub frontend-IsRouted :
    (cr : Kubeshark) (i : Ingress) (svc : Service) (d : Deployment)
    → IsFrontendIngress cr (component_labels cr) i
    → IsFrontendService cr (component_labels cr) svc
    → IsFrontendDeployment cr (component_labels cr) d
    → IsRouted cr i svc d
unfolding frontend_template frontend_rules component_labels
frontend-IsRouted cr i svc d hi hs hd = record {
  served = rw (hi.rules, hs.ports, hd.template) (simp eq_refl);
  selected = rw (hs.selector, hd.template) (simp eq_refl);
  host = (_, hi.rules, refl);
}
