-- ===== src/Earlier/Stored.antt =====
-- internal/controller/utils.go: what the functions `createOrUpdate` leave of an object that is
-- stored already.
use kubeshark_operator.Common.{ok-inj, ℕ, String, Option, some, ◌≡◌, refl, subst, Result, ok, err}
use kubeshark_operator.Common.Exec.{wrap_error, wrap_error-ok}
use kubeshark_operator.Common.Maps.{StringMap}
use kubeshark_operator.Kube.Workload.{Deployment}
use kubeshark_operator.Kube.Object.{Kind, ObjectOf, ref_of, deployment}
use kubeshark_operator.Api.{Kubeshark}
use kubeshark_operator.Runtime.{Runtime, OperationResult}
use kubeshark_operator.Runtime.Laws.{IsLawful}
use kubeshark_operator.Earlier.Apply.{describe, applied}
use kubeshark_operator.Earlier.Hub.{
  hub_deployment_object, hub_template, selector_if_new, mutate_hub_deployment,
  create_or_update_hub_deployment,
}
use kubeshark_operator.Earlier.Frontend.{
  frontend_deployment_object, create_or_update_frontend_deployment,
}

describe-ok :
    {A : Type 0} (R : Runtime) (what : String) (a : A) (res : Result OperationResult)
    (out : A × String)
    → describe R what a res ≡ ok out
    → (op : OperationResult) × (res ≡ ok op)
describe-ok R what a (ok op) out h = (op, refl)
describe-ok R what a (err e) out h = cc

module _ (R : Runtime) (L : IsLawful R) (k : Kind) (o : ObjectOf k)
    (f : ObjectOf k → Result (ObjectOf k)) (prefix what : String) (w : R.World) where
  -- A call that returns has stored what the mutate function makes of the stored object.
  applied-stored :
      (d : ObjectOf k) (out : Option (ObjectOf k) × String)
      → R.stored w (ref_of k o) ≡ some d
      → (wrap_error prefix (applied R k o f what) w).0 ≡ ok out
      → (s t : ObjectOf k) × (f d ≡ ok s)
        × (R.stored (wrap_error prefix (applied R k o f what) w).1 (ref_of k o) ≡ some t)
        × R.Realises k s t
  unfolding applied wrap_error
  applied-stored d out there done =
      let returned = wrap_error-ok prefix (applied R k o f what) w done in
      let (op, fine) = describe-ok R what _ (R.create_or_update k o f w).0 out returned in
      let (s, t, made, after, real) = L.effects.apply k o f w op fine in
      (s, t, cc (made, there), after, real)

-- The Deployment is stored as the server realised one that is as stated.
pub record StoredDeployment (R : Runtime) (w : R.World) (r : Deployment) (P : Deployment → Type 0)
    : Type 0 where
  pub submitted : Deployment
  pub found : Deployment
  pub desired : P submitted
  pub stored : R.stored w (ref_of deployment r) ≡ some found
  pub realised : R.Realises deployment submitted found

-- The submitted Deployment has the metadata, the selector and the pod annotations of the stored one,
-- and the labels on its pods.
pub record KeepsDeployment (labels : StringMap) (d s : Deployment) : Type 0 where
  pub annotations : s.spec.template.meta.annotations ≡ d.spec.template.meta.annotations
  pub selector : s.spec.selector ≡ d.spec.selector
  pub meta : s.meta ≡ d.meta
  pub pod_labels : s.spec.template.meta.labels ≡ labels

mutate_hub_deployment-Keeps :
    (cr : Kubeshark) (labels : StringMap) (get_or_default_int : Option ℕ → ℕ → Option ℕ)
    (created : ℕ) (d s : Deployment)
    → d.meta.creation_timestamp ≡ some created
    → mutate_hub_deployment cr labels get_or_default_int d ≡ ok s
    → KeepsDeployment labels d s
unfolding mutate_hub_deployment selector_if_new hub_template
mutate_hub_deployment-Keeps cr labels get_or_default_int created d s time h =
    subst (KeepsDeployment labels d) (ok-inj h)
      (record { annotations = refl; selector = rw time; meta = refl; pod_labels = refl })

module _ (R : Runtime) (L : IsLawful R) (cr : Kubeshark) (labels : StringMap) (w : R.World)
    (d : Deployment) (out : Option Deployment × String) where
  -- For every runtime that behaves as documented: if the frontend's earlier Deployment is stored
  -- already and the earlier function returns without error, then it has submitted that stored
  -- Deployment as it was, whatever image or labels the resource now asks for.
  pub create_or_update_frontend_deployment-freezes :
      R.stored w (ref_of deployment (frontend_deployment_object cr labels)) ≡ some d
      → (create_or_update_frontend_deployment R cr labels w).0 ≡ ok out
      → StoredDeployment R
          (create_or_update_frontend_deployment R cr labels w).1
          (frontend_deployment_object cr labels)
          (λ s. s ≡ d)
  unfolding create_or_update_frontend_deployment
  create_or_update_frontend_deployment-freezes there done =
      let (s, t, made, after, real) =
        applied-stored R L deployment (frontend_deployment_object cr labels) (λ dep. ok dep)
          "failed to create or update Frontend Deployment" " Frontend Deployment" w d out there
          done in
      record { submitted = s; found = t; desired = cc made; stored = after; realised = real }

  -- For every runtime that behaves as documented and any `getOrDefaultInt`: if the hub's earlier
  -- Deployment is stored with a creation time and the earlier function returns without error, then
  -- what it has submitted has the stored metadata, selector and pod annotations, and the labels on
  -- its pods.
  pub create_or_update_hub_deployment-keeps :
      (get_or_default_int : Option ℕ → ℕ → Option ℕ) (created : ℕ)
      → R.stored w (ref_of deployment (hub_deployment_object cr)) ≡ some d
      → d.meta.creation_timestamp ≡ some created
      → (create_or_update_hub_deployment R cr labels get_or_default_int w).0 ≡ ok out
      → StoredDeployment R
          (create_or_update_hub_deployment R cr labels get_or_default_int w).1
          (hub_deployment_object cr)
          (KeepsDeployment labels d)
  unfolding create_or_update_hub_deployment
  create_or_update_hub_deployment-keeps get_or_default_int created there time done =
      let (s, t, made, after, real) =
        applied-stored R L deployment (hub_deployment_object cr)
          (mutate_hub_deployment cr labels get_or_default_int)
          "failed to create or update Hub Deployment" " Deployment:" w d out there done in
      record {
        submitted = s;
        found = t;
        desired = mutate_hub_deployment-Keeps cr labels get_or_default_int created d s time made;
        stored = after;
        realised = real;
      }
