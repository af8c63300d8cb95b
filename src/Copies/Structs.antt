-- ===== src/Copies/Structs.antt =====
-- api/v1beta1/kubeshark_types.go in a heap: what the variables of the Go types hold. A pointer, map
-- or slice is an address, or `none` if it is nil.
use kubeshark_operator.Common.{ℕ, String, Option, List, []}
use kubeshark_operator.Common.Maps.{StringMap}
use kubeshark_operator.Kube.Meta.{ObjectMeta, Condition, Untouched}
use kubeshark_operator.Kube.Pod.{ContainerPort}
use kubeshark_operator.Kube.Access.{PolicyRule}
use kubeshark_operator.Api.{SecretKubesharkSpec}
use kubeshark_operator.Copies.Layout.{Layout, Copier, IsDeepCopy}

-- What variables of apimachinery's and rbac's types hold, and the cells that these packages use.
pub record Foreign : Type 1 where
  pub MetaVar : Type 0
  pub ListMetaVar : Type 0
  pub RuleVar : Type 0
  pub ConditionVar : Type 0
  pub OtherCell : Type 0

-- `metav1.TypeMeta`
pub record TypeMeta : Type 0 where
  pub kind : String
  pub api_version : String

pub record SpecVar : Type 0 where
  pub hub_image : String
  pub frontend_image : String
  pub hub_replicas : Option ℕ
  pub worker_image : String
  pub namespace : String
  pub ingress_host : String
  pub ingress_class_name : String
  pub ingress_name : String
  pub service_account_hub : String
  pub service_account_worker : String
  pub hub_config_map_data : Option ℕ
  pub cluster_role_rules : Option ℕ
  pub cluster_role_name : String
  pub cluster_role_binding_name : String
  pub hub_deployment_name : String
  pub hub_labels : Option ℕ
  pub hub_container_ports : Option ℕ
  pub worker_daemon_set_name : String
  pub worker_labels : Option ℕ
  pub hub_service_name : String
  pub hub_config_map_name : String
  pub secret_kubeshark : SecretKubesharkSpec

pub record StatusVar : Type 0 where
  pub conditions : Option ℕ
  pub observed_generation : ℕ

module _ (F : Foreign) where
  pub record KubesharkVar : Type 0 where
    pub type_meta : TypeMeta
    pub meta : F.MetaVar
    pub spec : SpecVar
    pub status : StatusVar

  pub record KubesharkListVar : Type 0 where
    pub type_meta : TypeMeta
    pub meta : F.ListMetaVar
    pub items : Option ℕ

  pub data Cell : Type 0 where
    int_cell : ℕ → Cell
    map_cell : StringMap → Cell
    rules_cell : List F.RuleVar → Cell
    ports_cell : List ContainerPort → Cell
    conditions_cell : List F.ConditionVar → Cell
    items_cell : List KubesharkVar → Cell
    other_cell : F.OtherCell → Cell

  -- The `DeepCopyInto` of the other packages' types.
  pub record Library : Type 1 where
    pub meta_layout : Layout Cell F.MetaVar ObjectMeta
    pub list_meta_layout : Layout Cell F.ListMetaVar Untouched
    pub rule_layout : Layout Cell F.RuleVar PolicyRule
    pub condition_layout : Layout Cell F.ConditionVar Condition
    pub copy_meta : Copier Cell F.MetaVar
    pub copy_list_meta : Copier Cell F.ListMetaVar
    pub copy_rule : Copier Cell F.RuleVar
    pub copy_condition : Copier Cell F.ConditionVar

  -- They make deep copies, as their documentation says.
  pub record IsCopying (lib : Library) : Type 0 where
    pub meta : IsDeepCopy lib.meta_layout lib.copy_meta
    pub list_meta : IsDeepCopy lib.list_meta_layout lib.copy_list_meta
    pub rule : IsDeepCopy lib.rule_layout lib.copy_rule
    pub condition : IsDeepCopy lib.condition_layout lib.copy_condition

-- What a pointer of each type leads to. Go's types exclude the last case of each.
module _ {F : Foreign} where
  abbrev pub int_at : Cell F → ℕ
  int_at (int_cell n) = n
  int_at _ = 0

  abbrev pub map_at : Cell F → StringMap
  map_at (map_cell m) = m
  map_at _ = []

  abbrev pub rules_at : Cell F → List F.RuleVar
  rules_at (rules_cell xs) = xs
  rules_at _ = []

  abbrev pub ports_at : Cell F → List ContainerPort
  ports_at (ports_cell xs) = xs
  ports_at _ = []

  abbrev pub conditions_at : Cell F → List F.ConditionVar
  conditions_at (conditions_cell xs) = xs
  conditions_at _ = []

  abbrev pub items_at : Cell F → List (KubesharkVar F)
  items_at (items_cell xs) = xs
  items_at _ = []
