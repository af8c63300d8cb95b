-- ===== src/Reconcile/Convergence.antt =====
-- The first two calls for a new resource.
use kubeshark_operator.Common.{false, none, some, ◌≡◌, ◌≢◌, ◌∙◌, ap, sym, ok, List, [], ◌∷◌, All}
use kubeshark_operator.Kube.Meta.{NamespacedName, condition_true}
use kubeshark_operator.Kube.Object.{Ref}
use kubeshark_operator.Api.{KubesharkSpec, Kubeshark, key_of}
use kubeshark_operator.Names.{
  finalizer_name, get_or_default_string, hub_service_name, hub_deployment_name,
  frontend_service_name, frontend_deployment_name, hub_service_account_name,
  worker_service_account_name,
}
use kubeshark_operator.Runtime.{Runtime}
use kubeshark_operator.Runtime.Laws.{IsLawful, Keeps, KeepsSpec}
use kubeshark_operator.Runtime.Wants.{AllPresent}
use kubeshark_operator.Runtime.Available.{IsAvailable, Application, MayApply, MayApply-of_stored}
use kubeshark_operator.Status.Correct.{Shows}
use kubeshark_operator.Reconcile.{reconcile, with_finalizer}
use kubeshark_operator.Reconcile.Paths.{IsActive, reconcile-eq-add}
use kubeshark_operator.Reconcile.Wanted.{HasOwnNames}
use kubeshark_operator.Reconcile.Adoption.{reconcile_new-IsAdopted}
use kubeshark_operator.Reconcile.Specified.Objects.{specified}
use kubeshark_operator.Reconcile.Parts.{applications}
use kubeshark_operator.Reconcile.Progress.{reconcile-returns}
use kubeshark_operator.Reconcile.Success.{reconcile-AllPresent, reconcile-Shows}

-- Two calls for the request return no error. After the first, the resource is stored with the
-- finalizer, as it was otherwise; after the second, its objects are there and it is ready.
pub record Converges (R : Runtime) (req : NamespacedName) (w : R.World) (cr : Kubeshark)
    : Type 0 where
  pub resource : Kubeshark
  pub first : (reconcile R req w).0 ≡ ok tt
  pub found : R.kubeshark (reconcile R req w).1 (key_of cr) ≡ some resource
  pub kept : Keeps (with_finalizer R cr) resource
  pub second : (reconcile R req (reconcile R req w).1).0 ≡ ok tt
  pub present : AllPresent R (reconcile R req (reconcile R req w).1).1 (specified resource)
  pub shows :
      Shows R
        (reconcile R req (reconcile R req w).1).1
        resource
        condition_true
        "Reconciled"
        "All components reconciled"

-- The resource under another key and with another spec.
abbrev moved : Kubeshark → NamespacedName → KubesharkSpec → Kubeshark
moved cr key spec = record cr {
  meta = record cr.meta { name = key.name; namespace = key.namespace };
  spec = spec;
}

-- The names of the objects depend on the key, and on nothing that the server changes in the spec.
module _ (x y : Kubeshark) (key : key_of x ≡ key_of y) (spec : KeepsSpec y.spec x.spec) where
  moved-eq :
      {A : Type 0} (f : Kubeshark → A)
      → f x
        ≡ f (
            moved x (key_of y) (record y.spec {
              hub_replicas = x.spec.hub_replicas;
              hub_config_map_data = x.spec.hub_config_map_data;
            }))
  moved-eq f = ap (λ k. f (moved x k x.spec)) key ∙ ap (λ s. f (moved x (key_of y) s)) spec.others

  HasOwnNames-same : HasOwnNames y → HasOwnNames x
  unfolding get_or_default_string hub_service_name hub_deployment_name frontend_service_name
      frontend_deployment_name
  HasOwnNames-same h = record {
    deployments = λ e.
        h.deployments
          (sym (moved-eq frontend_deployment_name) ∙ (e ∙ moved-eq hub_deployment_name));
    services =
        λ e. h.services (sym (moved-eq frontend_service_name) ∙ (e ∙ moved-eq hub_service_name));
  }

  accounts-same :
      worker_service_account_name y ≢ hub_service_account_name y
      → worker_service_account_name x ≢ hub_service_account_name x
  unfolding get_or_default_string worker_service_account_name hub_service_account_name
  accounts-same h =
      λ e. h (sym (moved-eq worker_service_account_name) ∙ (e ∙ moved-eq hub_service_account_name))

module _ (R : Runtime) (L : IsLawful R) (A : IsAvailable R) (req : NamespacedName) (w : R.World)
    (cr : Kubeshark) where
  -- A resource that was adopted is active for the next call.
  adopted-IsActive :
      (c : Kubeshark) (v : R.World)
      → key_of cr ≡ req
      → cr.meta.deletion_timestamp ≡ none
      → R.kubeshark v (key_of cr) ≡ some c
      → Keeps (with_finalizer R cr) c
      → IsActive R req v c
  adopted-IsActive c v named live there kept = record {
    got = A.read req v c (ap (R.kubeshark v) (sym named) ∙ there) (kept.key ∙ named);
    live = kept.deletion_timestamp ∙ live;
    held = rw kept.finalizers (L.utilities.contains-add cr.meta.finalizers finalizer_name);
  }

  -- What may be applied to the same objects.
  MayApply-kept :
      (c : Kubeshark) (v : R.World)
      → ((r : Ref) → R.stored v r ≡ R.stored w r)
      → (apps : List Application) → All (MayApply R A w c.meta) apps
      → All (MayApply R A v c.meta) apps
  MayApply-kept c v same [] h = tt
  MayApply-kept c v same (a ∷ apps) (may, h) =
      (MayApply-of_stored R A c.meta w v a (same _) may, MayApply-kept c v same apps h)

  -- For every runtime that behaves as documented and answers: if the request names a resource that
  -- is not being deleted and does not hold the finalizer, whose hub and frontend have different
  -- Deployment and Service names and whose hub and worker have different service accounts, and if
  -- for every resource that the server may keep of it with the finalizer, none of the twelve objects
  -- that is already stored has another controller and the server accepts, for each of the twelve
  -- calls of CreateOrUpdate, what the mutate function makes of the object that is stored, or of the
  -- one that the operator made where none is, then two calls of Reconcile return no error, and after the second the twelve objects are stored as specified for
  -- the resource as it was stored after the first, which shows a Ready condition that is true, with
  -- the reason Reconciled and the generation that was read.
  pub reconcile_twice-Converges :
      (R.get req w).0 ≡ ok cr
      → cr.meta.deletion_timestamp ≡ none
      → R.contains_finalizer cr.meta.finalizers finalizer_name ≡ false
      → HasOwnNames cr
      → worker_service_account_name cr ≢ hub_service_account_name cr
      → ((c : Kubeshark)
          → Keeps (with_finalizer R cr) c
          → All (MayApply R A w c.meta) (applications R c))
      → Converges R req w cr
  reconcile_twice-Converges got live absent own accounts may =
      let (there, key) = L.effects.get req w cr got in
      let path = reconcile-eq-add R L.frames req w cr got live absent in
      let first : (reconcile R req w).0 ≡ ok tt =
        ap (λ r. r.0) path ∙ A.write (with_finalizer R cr) cr w (ap (R.kubeshark w) key ∙ there) in
      let (adopted, same) = reconcile_new-IsAdopted R L req w cr got live absent first in
      let v = (reconcile R req w).1 in
      let c = adopted.resource in
      let active = adopted-IsActive c v key live adopted.found adopted.kept in
      let own_names = HasOwnNames-same c cr adopted.kept.key adopted.kept.spec own in
      let second =
        reconcile-returns R L A req v c active own_names
          (accounts-same c cr adopted.kept.key adopted.kept.spec accounts)
          (MayApply-kept c v same (applications R c) (may c adopted.kept)) in
      record {
        resource = c;
        found = adopted.found;
        kept = adopted.kept;
        first = first;
        second = second;
        present = reconcile-AllPresent R L req v c active own_names second;
        shows = reconcile-Shows R L req v c active second;
      }
