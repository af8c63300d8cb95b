-- ===== src/Copies/Values.antt =====
-- api/v1beta1/kubeshark_types.go in a heap: which value is read from a variable of each type.
use kubeshark_operator.Common.{ℕ, Option, none, some, List, []}
use kubeshark_operator.Common.Maps.{StringMap}
use kubeshark_operator.Kube.Meta.{ObjectMeta, Condition, Untouched}
use kubeshark_operator.Kube.Pod.{ContainerPort}
use kubeshark_operator.Kube.Access.{PolicyRule}
use kubeshark_operator.Api.{KubesharkSpec, KubesharkStatus, Kubeshark}
use kubeshark_operator.Copies.Layout.{Layout, pair_layout}
use kubeshark_operator.Copies.Pointers.{flat_layout, struct_layout, list_layout, pointer_layout}
use kubeshark_operator.Copies.Structs.{
  Foreign, TypeMeta, SpecVar, StatusVar, KubesharkVar, KubesharkListVar, Cell, Library, int_at,
  map_at, rules_at, ports_at, conditions_at, items_at,
}

-- The fields that hold pointers, and what is read from them.
abbrev pub SpecPointers : Type 0
SpecPointers = Option ℕ × (Option ℕ × (Option ℕ × (Option ℕ × (Option ℕ × Option ℕ))))

abbrev pub SpecValues : Type 0
SpecValues =
    Option ℕ
    × (Option StringMap × (List PolicyRule × (StringMap × (List ContainerPort × StringMap))))

abbrev pub spec_pointers : SpecVar → SpecPointers
spec_pointers s = (
  s.hub_replicas,
  (
    s.hub_config_map_data,
    (s.cluster_role_rules, (s.hub_labels, (s.hub_container_ports, s.worker_labels))),
  ),
)

abbrev pub with_spec_pointers : SpecVar → SpecPointers → SpecVar
with_spec_pointers s p = record s {
  hub_replicas = p.0;
  hub_config_map_data = p.1.0;
  cluster_role_rules = p.1.1.0;
  hub_labels = p.1.1.1.0;
  hub_container_ports = p.1.1.1.1.0;
  worker_labels = p.1.1.1.1.1;
}

abbrev pub spec_of : SpecVar → SpecValues → KubesharkSpec
spec_of s v = record {
  hub_image = s.hub_image;
  frontend_image = s.frontend_image;
  hub_replicas = v.0;
  worker_image = s.worker_image;
  namespace = s.namespace;
  ingress_host = s.ingress_host;
  ingress_class_name = s.ingress_class_name;
  ingress_name = s.ingress_name;
  service_account_hub = s.service_account_hub;
  service_account_worker = s.service_account_worker;
  hub_config_map_data = v.1.0;
  cluster_role_rules = v.1.1.0;
  cluster_role_name = s.cluster_role_name;
  cluster_role_binding_name = s.cluster_role_binding_name;
  hub_deployment_name = s.hub_deployment_name;
  hub_labels = v.1.1.1.0;
  hub_container_ports = v.1.1.1.1.0;
  worker_daemon_set_name = s.worker_daemon_set_name;
  worker_labels = v.1.1.1.1.1;
  hub_service_name = s.hub_service_name;
  hub_config_map_name = s.hub_config_map_name;
  secret_kubeshark = s.secret_kubeshark;
}

abbrev pub status_of : StatusVar → List Condition → KubesharkStatus
status_of s cs = record { conditions = cs; observed_generation = s.observed_generation }

abbrev pub kubeshark_of :
    {F : Foreign}
    → KubesharkVar F
    → ObjectMeta × (KubesharkSpec × KubesharkStatus)
    → TypeMeta × Kubeshark
kubeshark_of k v = (k.type_meta, record { meta = v.0; spec = v.1.0; status = v.1.1 })

module _ (F : Foreign) (lib : Library F) where
  -- A nil map or slice is read as an empty one, but for the configuration data.
  abbrev pub int_layout : Layout (Cell F) (Option ℕ) (Option ℕ)
  int_layout = pointer_layout (flat_layout {T = ℕ}) int_at none (λ n. some n)

  abbrev pub data_layout : Layout (Cell F) (Option ℕ) (Option StringMap)
  data_layout = pointer_layout (flat_layout {T = StringMap}) map_at none (λ m. some m)

  abbrev pub map_layout : Layout (Cell F) (Option ℕ) StringMap
  map_layout = pointer_layout (flat_layout {T = StringMap}) map_at [] (λ m. m)

  abbrev pub ports_layout : Layout (Cell F) (Option ℕ) (List ContainerPort)
  ports_layout = pointer_layout (flat_layout {T = List ContainerPort}) ports_at [] (λ m. m)

  abbrev pub rules_layout : Layout (Cell F) (Option ℕ) (List PolicyRule)
  rules_layout = pointer_layout (list_layout lib.rule_layout) rules_at [] (λ m. m)

  abbrev pub conditions_layout : Layout (Cell F) (Option ℕ) (List Condition)
  conditions_layout = pointer_layout (list_layout lib.condition_layout) conditions_at [] (λ m. m)

  abbrev pub spec_layout : Layout (Cell F) SpecVar KubesharkSpec
  spec_layout =
      struct_layout
        (pair_layout int_layout (
          pair_layout data_layout (
            pair_layout rules_layout
              (pair_layout map_layout (pair_layout ports_layout map_layout)))))
        spec_pointers spec_of

  abbrev pub status_layout : Layout (Cell F) StatusVar KubesharkStatus
  status_layout = struct_layout conditions_layout (λ s. s.conditions) status_of

  abbrev pub kubeshark_layout : Layout (Cell F) (KubesharkVar F) (TypeMeta × Kubeshark)
  kubeshark_layout =
      struct_layout (pair_layout lib.meta_layout (pair_layout spec_layout status_layout))
        (λ k. (k.meta, (k.spec, k.status))) kubeshark_of

  abbrev pub kubeshark_list_layout :
      Layout (Cell F) (KubesharkListVar F) (TypeMeta × (Untouched × List (TypeMeta × Kubeshark)))
  kubeshark_list_layout =
      struct_layout
        (pair_layout lib.list_meta_layout
          (pointer_layout (list_layout kubeshark_layout) items_at [] (λ m. m)))
        (λ k. (k.meta, k.items)) (λ k v. (k.type_meta, v))
