-- ===== src/Wiring/Ports.antt =====
-- internal/controller/hub.go, frontend.go and worker.go: the ports of Services, containers and
-- probes.
use kubeshark_operator.Common.{
  Bool, true, false, ◌||◌, ◌&&◌, List, [], ◌∷◌, ◌≡◌, refl, every, exists,
}
use kubeshark_operator.Common.Maps.{StringMap}
use kubeshark_operator.Kube.Pod.{ContainerPort}
use kubeshark_operator.Kube.Workload.{Deployment}
use kubeshark_operator.Kube.Network.{Service, ServicePort}
use kubeshark_operator.Api.{Kubeshark}
use kubeshark_operator.Hub.Objects.{hub_template, hub_container, ports_or_default}
use kubeshark_operator.Hub.Desired.{IsHubDeployment, IsHubService}
use kubeshark_operator.Wiring.Route.{is_port, listens_on}

-- No port is listed, or 8080 is.
abbrev pub leaves_8080 : List ContainerPort → Bool
leaves_8080 [] = true
leaves_8080 (p ∷ ports) = exists (λ q. is_port q.container_port 8080) (p ∷ ports)

ports_or_default-exists :
    (ports : List ContainerPort)
    → exists (λ q. is_port q.container_port 8080) (ports_or_default ports) ≡ leaves_8080 ports
ports_or_default-exists [] = refl
ports_or_default-exists (p ∷ ports) = refl

or_false-and_true : (b : Bool) → ((b || false) && true) ≡ b
or_false-and_true true = refl
or_false-and_true false = refl

module _ (cr : Kubeshark) (labels : StringMap) where
  -- If a Service and a Deployment are as the resource wants those of its hub, then each target port
  -- of the Service is listed by the hub's pods just if the resource lists no container ports for
  -- the hub, or lists port 8080.
  pub hub-listens :
      (svc : Service) (d : Deployment)
      → IsHubService cr labels svc
      → IsHubDeployment cr labels d
      → every (λ (p : ServicePort). listens_on d.spec.template p.target_port) svc.spec.ports
        ≡ leaves_8080 cr.spec.hub_container_ports
  unfolding hub_template hub_container
  hub-listens svc d s h =
      rw
        (
          s.ports,
          h.template,
          ports_or_default-exists cr.spec.hub_container_ports,
          or_false-and_true (leaves_8080 cr.spec.hub_container_ports),
        )
        refl
