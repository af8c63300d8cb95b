-- ===== src/Kube/Access.antt =====
-- `rbacv1`'s roles and bindings, `corev1.ServiceAccount`, `corev1.ConfigMap` and `corev1.Secret`.
use kubeshark_operator.Common.{String, Option, none, List, []}
use kubeshark_operator.Common.Maps.{StringMap}
use kubeshark_operator.Kube.Meta.{ObjectMeta, Untouched}

pub record PolicyRule : Type 0 where
  pub api_groups : List String
  pub resources : List String
  pub resource_names : List String
  pub verbs : List String
  pub non_resource_urls : List String

pub record ClusterRole : Type 0 where
  pub meta : ObjectMeta
  pub rules : List PolicyRule
  pub other : Untouched

abbrev pub cluster_role_of : ObjectMeta → ClusterRole
cluster_role_of meta = record { meta = meta; rules = []; other = [] }

pub record Subject : Type 0 where
  pub kind : String
  pub name : String
  pub namespace : String

pub record RoleRef : Type 0 where
  pub api_group : String
  pub kind : String
  pub name : String

pub record ClusterRoleBinding : Type 0 where
  pub meta : ObjectMeta
  pub subjects : List Subject
  pub role_ref : RoleRef

abbrev pub cluster_role_binding_of : ObjectMeta → ClusterRoleBinding
cluster_role_binding_of meta = record {
  meta = meta;
  subjects = [];
  role_ref = record { api_group = ""; kind = ""; name = "" };
}

pub record ServiceAccount : Type 0 where
  pub meta : ObjectMeta
  pub other : Untouched

abbrev pub service_account_of : ObjectMeta → ServiceAccount
service_account_of meta = record { meta = meta; other = [] }

pub record ConfigMap : Type 0 where
  pub meta : ObjectMeta
  pub entries : StringMap
  pub other : Untouched

abbrev pub config_map_of : ObjectMeta → ConfigMap
config_map_of meta = record { meta = meta; entries = []; other = [] }

-- `string_data` is `none` for the nil map, which the sources test for.
pub record Secret : Type 0 where
  pub meta : ObjectMeta
  pub type : String
  pub string_data : Option StringMap
  pub other : Untouched

abbrev pub secret_of : ObjectMeta → Secret
secret_of meta = record { meta = meta; type = ""; string_data = none; other = [] }
