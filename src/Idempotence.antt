-- ===== src/Idempotence.antt =====
-- The functions that `controllerutil.CreateOrUpdate` calls, applied to their own results.
use kubeshark_operator.Common.{String, some, Option, ◌≡◌, ◌∙◌, refl, ap, sym, Result, ok, arith}
use kubeshark_operator.Common.Outcome
use kubeshark_operator.Common.Maps.{StringMap, insert-present}
use kubeshark_operator.Kube.Meta.{ObjectMeta}
use kubeshark_operator.Api.{Kubeshark, SecretKubesharkSpec}
use kubeshark_operator.Names.{get_or_default_string}
use kubeshark_operator.Runtime.{Runtime}
use kubeshark_operator.Runtime.Laws.{HasUtilities}
use kubeshark_operator.Runtime.Owned.{owned, labelled}
use kubeshark_operator.Hub.Objects.{
  mutate_hub_config_map, mutate_hub_service_account, mutate_hub_deployment, mutate_hub_service,
}
use kubeshark_operator.Rbac.Objects.{
  mutate_worker_service_account, mutate_cluster_role, mutate_cluster_role_binding,
}
use kubeshark_operator.Worker.{mutate_worker}
use kubeshark_operator.Frontend.Objects.{
  class_or_keep, frontend_rules, mutate_frontend_deployment, mutate_frontend_service,
  mutate_frontend_ingress,
}
use kubeshark_operator.Secret.{write_secret_data, mutate_secret}
use kubeshark_operator.Secret.Correct.{write_secret_data-HasSecretData}

-- What the function makes of an object, it leaves as it is.
abbrev pub IsSettling : {A : Type 0} → (A → Result A) → Type 0
IsSettling {A} f = (b s : A) → f b ≡ ok s → f s ≡ ok s

class_or_keep_idem :
    (class : String) (old : Option String)
    → class_or_keep class (class_or_keep class old) ≡ class_or_keep class old
unfolding class_or_keep
class_or_keep_idem class old = ground arith

write_secret_data_idem :
    (sk : SecretKubesharkSpec) (m : StringMap)
    → write_secret_data sk (write_secret_data sk m) ≡ write_secret_data sk m
unfolding write_secret_data get_or_default_string
write_secret_data_idem sk m =
    let h = write_secret_data-HasSecretData sk m in
    rw
      (
        insert-present _ _ _ h.license,
        insert-present _ _ _ h.scripting_env,
        insert-present _ _ _ h.oidc_client_id,
        insert-present _ _ _ h.oidc_client_secret,
      )
      refl

-- A function that never refuses.
pure-IsSettling : {A : Type 0} (g : A → A) → ((b : A) → g (g b) ≡ g b) → IsSettling (λ b. ok (g b))
pure-IsSettling g again b s h =
    let made : g b ≡ s = cc h in ap ok (ap g (sym made) ∙ (again b ∙ made))

module _ (R : Runtime) (U : HasUtilities R) (cr : Kubeshark) (labels : StringMap) where
  -- A function that begins with `SetControllerReference` and sets the labels.
  owned-IsSettling :
      {A : Type 0} (meta : A → ObjectMeta) (g : A → ObjectMeta → A)
      → ((b : A) (m : ObjectMeta) → meta (g b m) ≡ labelled labels m)
      → ((b : A) (m : ObjectMeta) → g (g b m) (labelled labels m) ≡ g b m)
      → IsSettling
          (λ b. Outcome.◌>>=◌ (R.set_controller_reference cr.meta (meta b)) (λ m. ok (g b m)))
  owned-IsSettling {A} meta g keeps again b s h =
      let (m, made, child, _) = owned R U cr labels (meta b) (g b) s h in
      let same : meta s ≡ labelled labels m = ap meta (sym made) ∙ keeps b m in
      rw (same, U.set_controller_again cr.meta (labelled labels m) child.controlled)
        (ap ok (ap (λ x. g x (labelled labels m)) (sym made) ∙ (again b m ∙ made)))

-- All twelve functions settle, for one resource and its labels.
pub record AllSettle (R : Runtime) (cr : Kubeshark) (labels : StringMap) : Type 0 where
  pub hub_config_map : IsSettling (mutate_hub_config_map R cr labels)
  pub hub_service_account : IsSettling (mutate_hub_service_account R cr labels)
  pub hub_deployment : IsSettling (mutate_hub_deployment R cr labels)
  pub hub_service : IsSettling (mutate_hub_service R cr labels)
  pub worker_service_account : IsSettling (mutate_worker_service_account R cr labels)
  pub role : IsSettling (mutate_cluster_role cr labels)
  pub binding : IsSettling (mutate_cluster_role_binding cr labels)
  pub worker : IsSettling (mutate_worker R cr labels)
  pub frontend_deployment : IsSettling (mutate_frontend_deployment R cr labels)
  pub frontend_service : IsSettling (mutate_frontend_service R cr labels)
  pub frontend_ingress : IsSettling (mutate_frontend_ingress R cr labels)
  pub kubeshark_secret : IsSettling (mutate_secret R cr labels)

module _ (R : Runtime) (U : HasUtilities R) (cr : Kubeshark) (labels : StringMap) where
  -- For every runtime whose utilities behave as documented, and any resource and labels: each of
  -- the twelve functions that the steps pass to `CreateOrUpdate`, if it accepts an object, accepts
  -- its own result and returns it as it is.
  pub mutate-AllSettle : AllSettle R cr labels
  unfolding mutate_hub_config_map mutate_hub_service_account mutate_hub_deployment
      mutate_hub_service mutate_worker_service_account mutate_cluster_role
      mutate_cluster_role_binding mutate_worker mutate_frontend_deployment mutate_frontend_service
      mutate_frontend_ingress mutate_secret
  mutate-AllSettle = record {
    hub_config_map = owned-IsSettling R U cr labels _ _ (λ b m. refl) (λ b m. refl);
    hub_service_account = owned-IsSettling R U cr labels _ _ (λ b m. refl) (λ b m. refl);
    hub_deployment = owned-IsSettling R U cr labels _ _ (λ b m. refl) (λ b m. refl);
    hub_service = owned-IsSettling R U cr labels _ _ (λ b m. refl) (λ b m. refl);
    worker_service_account = owned-IsSettling R U cr labels _ _ (λ b m. refl) (λ b m. refl);
    role = pure-IsSettling _ (λ b. refl);
    binding = pure-IsSettling _ (λ b. refl);
    worker = owned-IsSettling R U cr labels _ _ (λ b m. refl) (λ b m. refl);
    frontend_deployment = owned-IsSettling R U cr labels _ _ (λ b m. refl) (λ b m. refl);
    frontend_service = owned-IsSettling R U cr labels _ _ (λ b m. refl) (λ b m. refl);
    frontend_ingress =
        owned-IsSettling R U cr labels _ _ (λ b m. refl)
          (λ b m.
            ap
              (λ (c : Option String). record b {
                meta = labelled labels m;
                spec = record b.spec { ingress_class_name = c; rules = frontend_rules cr };
              })
              (class_or_keep_idem cr.spec.ingress_class_name b.spec.ingress_class_name));
    kubeshark_secret =
        owned-IsSettling R U cr labels _ _ (λ b m. refl)
          (λ b m.
            ap
              (λ (d : StringMap). record b {
                meta = labelled labels m;
                type = "Opaque";
                string_data = some d;
              })
              (write_secret_data_idem cr.spec.secret_kubeshark _));
  }
