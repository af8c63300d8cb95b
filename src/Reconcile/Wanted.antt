-- ===== src/Reconcile/Wanted.antt =====
-- The twelve objects that a resource asks for, and that the steps together implement them.
use kubeshark_operator.Common.{
  String, ◌==◌, Bool, true, false, ◌&&◌, List, [], ◌++◌, ◌≡◌, ◌≢◌, refl, subst, inl, inr, arith,
  eq_iff, Bool-cases, All,
}
use kubeshark_operator.Kube.Object.{service_account, same_ref}
use kubeshark_operator.Api.{Kubeshark}
use kubeshark_operator.Names.{
  component_labels, hub_service_account_name, worker_service_account_name, hub_deployment_name,
  hub_service_name, frontend_deployment_name, frontend_service_name,
}
use kubeshark_operator.Runtime.{Runtime}
use kubeshark_operator.Runtime.Laws.{IsLawful}
use kubeshark_operator.Runtime.Owned.{IsChild}
use kubeshark_operator.Runtime.Wants.{refs, Want, Present, Compatible, Implements, Implements-seq}
use kubeshark_operator.Runtime.Footprint.{Within-pure, Within-seq, Within}
use kubeshark_operator.Hub.Desired.{hub_wants}
use kubeshark_operator.Hub.Correct.{reconcile_hub-Implements}
use kubeshark_operator.Rbac.Correct.{rbac_wants, reconcile_rbac-Implements}
use kubeshark_operator.Worker.Correct.{worker_wants, reconcile_worker-Implements}
use kubeshark_operator.Frontend.Desired.{frontend_wants}
use kubeshark_operator.Frontend.Correct.{reconcile_frontend-Implements}
use kubeshark_operator.Secret.Correct.{secret_wants, reconcile_secret-Implements}
use kubeshark_operator.Reconcile.{steps}
use kubeshark_operator.Reconcile.Loop.{sequence}

-- What the steps after the second leave behind, and those after the first.
abbrev pub last_wants : Kubeshark → List Want
last_wants cr =
    worker_wants cr (component_labels cr)
    ++ (frontend_wants cr (component_labels cr) ++ (secret_wants cr (component_labels cr) ++ []))

abbrev pub later_wants : Kubeshark → List Want
later_wants cr = rbac_wants cr (component_labels cr) ++ last_wants cr

abbrev pub wants : Kubeshark → List Want
wants cr = hub_wants cr (component_labels cr) ++ later_wants cr

-- The hub's Deployment and Service are not those of the frontend. Two service accounts may be one.
pub record HasOwnNames (cr : Kubeshark) : Type 0 where
  pub deployments : frontend_deployment_name cr ≢ hub_deployment_name cr
  pub services : frontend_service_name cr ≢ hub_service_name cr

and-false : (a b : Bool) → b ≡ false → (a && b) ≡ false
and-false true b h = h
and-false false b h = refl

module _ (R : Runtime) (cr : Kubeshark) where
  abbrev account_named : String → Want
  account_named name = record {
    ref = record { kind = service_account; namespace = cr.meta.namespace; name = name };
    desired = λ o. IsChild cr (component_labels cr) o.meta;
  }

  account_Compatible : Compatible R (later_wants cr) (account_named (hub_service_account_name cr))
  unfolding same_ref
  account_Compatible =
      elim (Bool-cases (worker_service_account_name cr == hub_service_account_name cr)) [
        | inl same ↦
            inr (λ w p. subst (λ n. Present R w (account_named n)) ((eq_iff _ _).0 same) p.0)
        | inr differ ↦ inl (rw (and-false _ _ differ))
      ]

  hub_Compatible :
      HasOwnNames cr → All (Compatible R (later_wants cr)) (hub_wants cr (component_labels cr))
  unfolding same_ref
  hub_Compatible own = (
    inl refl,
    (
      account_Compatible,
      (
        inl (
            ground (
              arith,
              own.deployments,
              eq_iff (frontend_deployment_name cr) (hub_deployment_name cr),
            )),
        (
          inl (
              ground
                (arith, own.services, eq_iff (frontend_service_name cr) (hub_service_name cr))),
          tt,
        ),
      ),
    ),
  )

module _ (R : Runtime) (L : IsLawful R) (cr : Kubeshark) where
  -- Whether they return or fail, the steps write the twelve objects alone.
  pub steps-Within : Within R (refs (wants cr)) (sequence R (steps R cr))
  unfolding steps sequence
  steps-Within =
      let labels = component_labels cr in
      Within-seq R (refs (hub_wants cr labels)) (refs (later_wants cr)) _ _
        (reconcile_hub-Implements R L cr labels).within
        (Within-seq R (refs (rbac_wants cr labels)) _ _ _
          (reconcile_rbac-Implements R L cr labels).within
          (Within-seq R (refs (worker_wants cr labels)) _ _ _
            (reconcile_worker-Implements R L cr labels).within
            (Within-seq R (refs (frontend_wants cr labels)) _ _ _
              (reconcile_frontend-Implements R L cr labels).within
              (Within-seq R (refs (secret_wants cr labels)) [] _ _
                (reconcile_secret-Implements R L cr labels).within (Within-pure R [] tt)))))

  -- If they return, all twelve are there.
  pub steps-Implements : HasOwnNames cr → Implements R (sequence R (steps R cr)) (wants cr)
  unfolding steps sequence same_ref
  steps-Implements own =
      let labels = component_labels cr in
      Implements-seq R _ _ (hub_wants cr labels) _ (reconcile_hub-Implements R L cr labels)
        (Implements-seq R _ _ (rbac_wants cr labels) _ (reconcile_rbac-Implements R L cr labels)
          (Implements-seq R _ _ (worker_wants cr labels) _
            (reconcile_worker-Implements R L cr labels)
            (Implements-seq R _ _ (frontend_wants cr labels) _
              (reconcile_frontend-Implements R L cr labels)
              (Implements-seq R _ _ (secret_wants cr labels) []
                (reconcile_secret-Implements R L cr labels)
                (record { within = Within-pure R [] tt; establishes = λ w done. tt })
                (inl refl, tt))
              (inl refl, (inl refl, (inl refl, tt))))
            (inl refl, tt))
          (inl refl, (inl refl, (inl refl, tt))))
        (hub_Compatible R cr own)
