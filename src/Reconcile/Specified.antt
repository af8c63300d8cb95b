-- ===== src/Reconcile/Specified.antt =====
-- What a Kubeshark resource asks for, described without the operator's own definitions: the images,
-- ports, accounts, labels and tables are written out here once more.
pub mod Table
pub mod Pods
pub mod Nodes
pub mod Objects
pub mod Correct
use kubeshark_operator.Common.{String, ◌<>◌, ◌==◌, List, [], ◌∷◌, if◌then◌else◌}
use kubeshark_operator.Common.Maps.{StringMap}
use kubeshark_operator.Api.{Kubeshark}

-- What the resource gives, or what stands for it where the resource gives nothing.
abbrev pub given_or : String → String → String
given_or given otherwise = if given == "" then otherwise else given

abbrev pub list_or {ℓ} : {A : Type ℓ} → List A → List A → List A
list_or [] otherwise = otherwise
list_or (x ∷ given) otherwise = x ∷ given

module _ (cr : Kubeshark) where
  abbrev pub object_labels : StringMap
  object_labels =
      ("app.kubernetes.io/name", "kubeshark")
      ∷ ("app.kubernetes.io/instance", cr.meta.name)
      ∷ ("app.kubernetes.io/managed-by", "kubeshark-operator")
      ∷ []

  abbrev pub hub_account : String
  hub_account = given_or cr.spec.service_account_hub (cr.meta.name <> "-hub")

  abbrev pub worker_account : String
  worker_account = given_or cr.spec.service_account_worker (cr.meta.name <> "-worker")

  -- Cluster-scoped objects carry the resource's namespace in their names.
  abbrev pub cluster_wide_name : String
  cluster_wide_name = ((cr.meta.namespace <> "-") <> cr.meta.name) <> "-kubeshark"

  abbrev pub role_name : String
  role_name = given_or cr.spec.cluster_role_name cluster_wide_name
