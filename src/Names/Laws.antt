-- ===== src/Names/Laws.antt =====
-- When names of helpers.go differ, and when they collide.
use text.Mathlib.TextLemmas.{append_assoc}
use kubeshark_operator.Common.{String, ◌<>◌, ◌≡◌, ◌≢◌, append-ne, append-ne_left, suffix-ne, arith}
use kubeshark_operator.Api.{Kubeshark}

-- The resource sets none of the names of its objects.
pub record HasDefaultNames (cr : Kubeshark) : Type 0 where
  pub hub_config_map : cr.spec.hub_config_map_name ≡ ""
  pub hub_account : cr.spec.service_account_hub ≡ ""
  pub worker_account : cr.spec.service_account_worker ≡ ""
  pub hub_deployment : cr.spec.hub_deployment_name ≡ ""
  pub hub_service : cr.spec.hub_service_name ≡ ""
  pub worker_daemon_set : cr.spec.worker_daemon_set_name ≡ ""
  pub ingress : cr.spec.ingress_name ≡ ""
  pub role : cr.spec.cluster_role_name ≡ ""
  pub binding : cr.spec.cluster_role_binding_name ≡ ""

-- Names of the operator's objects that differ because their suffixes do.
pub hub-ne-frontend : (s t : String) → (s <> "-hub") ≢ (t <> "-frontend")
hub-ne-frontend s t = suffix-ne s t "hub" "frontend" (omega arith)

pub hub-ne-worker : (s t : String) → (s <> "-hub") ≢ (t <> "-worker")
hub-ne-worker s t = suffix-ne s t "hub" "worker" (omega arith)

-- Two cluster-scoped names of one namespace differ if the resources' names do.
pub role_names-ne :
    (namespace s t : String)
    → s ≢ t
    → (((namespace <> "-") <> s) <> "-kubeshark") ≢ (((namespace <> "-") <> t) <> "-kubeshark")
role_names-ne namespace s t differ =
    append-ne_left _ _ "-kubeshark" (append-ne (namespace <> "-") s t differ)

-- The dash that joins namespace and name may belong to either.
pub role_names_collide :
    (a b c : String) → (((a <> ("-" <> b)) <> "-") <> c) ≡ ((a <> "-") <> (b <> ("-" <> c)))
role_names_collide a b c = simp append_assoc
