-- ===== src/Reconcile/Isolation.antt =====
-- Two resources of one namespace that leave the names of their objects to the operator do not touch
-- each other's objects.
use kubeshark_operator.Common.{
  String, ◌<>◌, ◌==◌, true, false, List, [], ◌∷◌, ◌≡◌, ◌≢◌, ◌∙◌, sym, ap, ok, every, and-eq-true,
  append-ne_left, eq-false_of_ne, eq_refl,
}
use kubeshark_operator.Kube.Meta.{NamespacedName}
use kubeshark_operator.Kube.Object.{
  Ref, same_ref, config_map, service_account, deployment, service, cluster_role,
  cluster_role_binding, daemon_set, ingress, secret,
}
use kubeshark_operator.Api.{Kubeshark}
use kubeshark_operator.Names.{
  hub_service_name, hub_deployment_name, hub_config_map_name, worker_daemon_set_name,
  frontend_service_name, frontend_deployment_name, frontend_ingress_name, kubeshark_secret_name,
  hub_service_account_name, worker_service_account_name, cluster_role_name,
  cluster_role_binding_name,
}
use kubeshark_operator.Names.Laws.{HasDefaultNames, hub-ne-frontend, hub-ne-worker, role_names-ne}
use kubeshark_operator.Runtime.{Runtime}
use kubeshark_operator.Runtime.Laws.{IsLawful}
use kubeshark_operator.Runtime.Wants.{Want, refs, AllPresent, Present-of_stored}
use kubeshark_operator.Runtime.Footprint.{outside}
use kubeshark_operator.Reconcile.{reconcile}
use kubeshark_operator.Reconcile.Frame.{reconcile-Spares}
use kubeshark_operator.Reconcile.Wanted.{wants, HasOwnNames}

-- The objects of a resource that sets no names.
default_refs : String → String → List Ref
default_refs namespace name =
    record { kind = config_map; namespace = namespace; name = name <> "-config" }
    ∷ record { kind = service_account; namespace = namespace; name = name <> "-hub" }
    ∷ record { kind = deployment; namespace = namespace; name = name <> "-hub" }
    ∷ record { kind = service; namespace = namespace; name = name <> "-hub" }
    ∷ record { kind = service_account; namespace = namespace; name = name <> "-worker" }
    ∷ record {
      kind = cluster_role;
      namespace = "";
      name = ((namespace <> "-") <> name) <> "-kubeshark";
    }
    ∷ record {
      kind = cluster_role_binding;
      namespace = "";
      name = ((namespace <> "-") <> name) <> "-kubeshark";
    }
    ∷ record { kind = daemon_set; namespace = namespace; name = name <> "-worker" }
    ∷ record { kind = deployment; namespace = namespace; name = name <> "-frontend" }
    ∷ record { kind = service; namespace = namespace; name = name <> "-frontend" }
    ∷ record { kind = ingress; namespace = namespace; name = name <> "-frontend-ingress" }
    ∷ record { kind = secret; namespace = namespace; name = name <> "-secret" }
    ∷ []

refs-eq-default :
    (cr : Kubeshark)
    → HasDefaultNames cr
    → refs (wants cr) ≡ default_refs cr.meta.namespace cr.meta.name
unfolding default_refs hub_service_name hub_deployment_name hub_config_map_name
    worker_daemon_set_name frontend_service_name frontend_deployment_name frontend_ingress_name
    kubeshark_secret_name hub_service_account_name worker_service_account_name cluster_role_name
    cluster_role_binding_name
refs-eq-default cr d = simp (
  d.hub_config_map, d.hub_account, d.worker_account, d.hub_deployment, d.hub_service,
  d.worker_daemon_set, d.ingress, d.role, d.binding,
)

module _ (namespace s t : String) (differ : s ≢ t) where
  same_suffix : (u : String) → ((s <> u) == (t <> u)) ≡ false
  same_suffix u = eq-false_of_ne _ _ (append-ne_left s t u differ)

  role_suffix :
      ((((namespace <> "-") <> s) <> "-kubeshark") == (((namespace <> "-") <> t) <> "-kubeshark"))
      ≡ false
  role_suffix = eq-false_of_ne _ _ (role_names-ne namespace s t differ)

  hub_frontend : (s <> "-hub" == t <> "-frontend") ≡ false
  hub_frontend = eq-false_of_ne _ _ (hub-ne-frontend s t)

  frontend_hub : (s <> "-frontend" == t <> "-hub") ≡ false
  frontend_hub = eq-false_of_ne _ _ (λ e. hub-ne-frontend t s (sym e))

  hub_worker : (s <> "-hub" == t <> "-worker") ≡ false
  hub_worker = eq-false_of_ne _ _ (hub-ne-worker s t)

  worker_hub : (s <> "-worker" == t <> "-hub") ≡ false
  worker_hub = eq-false_of_ne _ _ (λ e. hub-ne-worker t s (sym e))

  default_refs-disjoint :
      every (outside (default_refs namespace s)) (default_refs namespace t) ≡ true
  unfolding default_refs same_ref
  default_refs-disjoint =
      simp (same_suffix, role_suffix, hub_frontend, frontend_hub, hub_worker, worker_hub, eq_refl)

-- A resource that sets no names has the hub's objects apart from the frontend's.
pub default-HasOwnNames : (cr : Kubeshark) → HasDefaultNames cr → HasOwnNames cr
unfolding hub_service_name hub_deployment_name frontend_service_name frontend_deployment_name
default-HasOwnNames cr d = record {
  deployments = λ e. hub-ne-frontend cr.meta.name cr.meta.name (sym (simp d.hub_deployment at e));
  services = λ e. hub-ne-frontend cr.meta.name cr.meta.name (sym (simp d.hub_service at e));
}

refs-disjoint :
    (x y : Kubeshark)
    → HasDefaultNames x
    → HasDefaultNames y
    → x.meta.namespace ≡ y.meta.namespace
    → x.meta.name ≢ y.meta.name
    → every (outside (refs (wants x))) (refs (wants y)) ≡ true
refs-disjoint x y dx dy space differ =
    ap (λ a. every (outside a) (refs (wants y))) (refs-eq-default x dx)
    ∙ (ap (λ a. every (outside (default_refs x.meta.namespace x.meta.name)) a)
          (refs-eq-default y dy ∙ ap (λ n. default_refs n y.meta.name) (sym space))
        ∙ default_refs-disjoint x.meta.namespace x.meta.name y.meta.name differ)

module _ (R : Runtime) (w v : R.World) (b : List Ref) where
  AllPresent-of_outside :
      ((r : Ref) → outside b r ≡ true → R.stored v r ≡ R.stored w r)
      → (a : List Want) → every (outside b) (refs a) ≡ true
      → AllPresent R w a
      → AllPresent R v a
  AllPresent-of_outside same [] out p = tt
  AllPresent-of_outside same (x ∷ a) out (px, p) =
      let (first, rest) = and-eq-true (outside b x.ref) _ out in
      (Present-of_stored R w v x (same x.ref first) px, AllPresent-of_outside same a rest p)

module _ (R : Runtime) (L : IsLawful R) (req : NamespacedName) (w : R.World) (x y : Kubeshark) where
  -- For every runtime that behaves as documented: if two resources of one namespace have different
  -- names and set none of the names of their objects, and the twelve objects of the second are
  -- there as wanted, then they are there as wanted after a call of Reconcile for the first,
  -- whichever way it goes and whether it returns or fails.
  pub reconcile-keeps_neighbour :
      (R.get req w).0 ≡ ok x
      → HasDefaultNames x
      → HasDefaultNames y
      → x.meta.namespace ≡ y.meta.namespace
      → x.meta.name ≢ y.meta.name
      → AllPresent R w (wants y)
      → AllPresent R (reconcile R req w).1 (wants y)
  reconcile-keeps_neighbour got dx dy space differ there =
      AllPresent-of_outside R w _ (refs (wants x)) (reconcile-Spares R L req w x got).stored
        (wants y) (refs-disjoint x y dx dy space differ) there
