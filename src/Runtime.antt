-- ===== src/Runtime.antt =====
-- What the operator calls of controller-runtime and apimachinery, which the repository does not
-- hold: a record of operations over an unknown state of the cluster, and their documented laws.
pub mod Laws
pub mod Footprint
pub mod Wants
pub mod Owned
pub mod Available
use kubeshark_operator.Common.{String, Bool, Option, List, Result}
use kubeshark_operator.Common.Exec.{Exec}
use kubeshark_operator.Kube.Meta.{ObjectMeta, Condition, NamespacedName}
use kubeshark_operator.Kube.Object.{Kind, ObjectOf, Ref}
use kubeshark_operator.Api.{Kubeshark}

-- `controllerutil.OperationResult`
pub data OperationResult : Type 0 where
  unchanged created updated : OperationResult

pub record Runtime : Type 1 where
  -- The state of the API server, and what it stores.
  pub World : Type 0
  pub stored : World → (r : Ref) → Option (ObjectOf r.kind)
  pub kubeshark : World → NamespacedName → Option Kubeshark
  -- `Realises submitted stored`: the server stored what was submitted. It may have filled in
  -- defaults and generated fields.
  pub Realises : (k : Kind) → ObjectOf k → ObjectOf k → Type 0
  -- `client.Client`
  pub get : NamespacedName → Exec World Kubeshark
  pub update : Kubeshark → Exec World (Unit {0})
  pub delete : Ref → Exec World (Unit {0})
  -- `client.Status().Patch(ctx, cr, client.MergeFrom(orig))`, at `orig` and `cr`
  pub patch_status : Kubeshark → Kubeshark → Exec World (Unit {0})
  -- The text of an `OperationResult`
  pub operation_text : OperationResult → String
  -- `controllerutil`
  pub create_or_update :
      (k : Kind) → ObjectOf k → (ObjectOf k → Result (ObjectOf k)) → Exec World OperationResult
  pub set_controller_reference : ObjectMeta → ObjectMeta → Result ObjectMeta
  pub contains_finalizer : List String → String → Bool
  pub add_finalizer : List String → String → List String
  pub remove_finalizer : List String → String → List String
  -- `meta.SetStatusCondition`
  pub set_status_condition : List Condition → Condition → List Condition
