-- ===== src/Tests/Heaps.antt =====
-- Deep copies on a heap whose cells hold a resource's replicas, data, rules and conditions.
use kubeshark_operator.Common.{ℕ, zero, suc, none, some, [], ◌∷◌, ◌≡◌, refl, arith}
use kubeshark_operator.Kube.Meta.{ObjectMeta, Condition, Untouched, condition_false}
use kubeshark_operator.Kube.Access.{PolicyRule}
use kubeshark_operator.Copies.Heap.{
  Heap, alloc, overwrite, overwrite-Agree_above, overwrite-Agree_below,
}
use kubeshark_operator.Copies.Pointers.{flat_layout, copy_flat, copy_flat-IsDeepCopy, copy_pointer}
use kubeshark_operator.Copies.Structs.{
  Foreign, TypeMeta, SpecVar, StatusVar, KubesharkVar, KubesharkListVar, Cell, Library, IsCopying,
  int_cell, map_cell, conditions_cell, items_cell,
}
use kubeshark_operator.Copies.Generated.{kubeshark_deep_copy_into}
use kubeshark_operator.Copies.Values.{kubeshark_layout, kubeshark_list_layout}
use kubeshark_operator.Copies.Independence.{
  AllCopyDeeply, IsIndependent, deep_copy-AllCopyDeeply, kubeshark_deep_copy_into-IsIndependent,
}
use kubeshark_operator.Tests.{demo}

-- Packages whose types hold no pointers.
abbrev pub plain_types : Foreign
plain_types = record {
  MetaVar = ObjectMeta;
  ListMetaVar = Untouched;
  RuleVar = PolicyRule;
  ConditionVar = Condition;
  OtherCell = Unit {0};
}

abbrev pub plain_library : Library plain_types
plain_library = record {
  meta_layout = flat_layout;
  list_meta_layout = flat_layout;
  rule_layout = flat_layout;
  condition_layout = flat_layout;
  copy_meta = copy_flat;
  copy_list_meta = copy_flat;
  copy_rule = copy_flat;
  copy_condition = copy_flat;
}

pub plain-IsCopying : IsCopying plain_types plain_library
plain-IsCopying = record {
  meta = copy_flat-IsDeepCopy;
  list_meta = copy_flat-IsDeepCopy;
  rule = copy_flat-IsDeepCopy;
  condition = copy_flat-IsDeepCopy;
}

abbrev pub failed_once : Condition
failed_once = record {
  type = "Ready";
  status = condition_false;
  observed_generation = 2;
  last_transition_time = none;
  reason = "ReconcileError";
  message = "conflict";
}

abbrev pub kubeshark_type : TypeMeta
kubeshark_type = record { kind = "Kubeshark"; api_version = "kubeshark.opstreelabs.in/v1beta1" }

abbrev pub stored_spec : SpecVar
stored_spec = record {
  hub_image = "";
  frontend_image = "";
  hub_replicas = some 0;
  worker_image = "";
  namespace = "";
  ingress_host = "";
  ingress_class_name = "";
  ingress_name = "";
  service_account_hub = "";
  service_account_worker = "";
  hub_config_map_data = some 1;
  cluster_role_rules = none;
  cluster_role_name = "";
  cluster_role_binding_name = "";
  hub_deployment_name = "";
  hub_labels = some 1;
  hub_container_ports = none;
  worker_daemon_set_name = "";
  worker_labels = none;
  hub_service_name = "";
  hub_config_map_name = "";
  secret_kubeshark = demo.spec.secret_kubeshark;
}

abbrev pub stored_status : StatusVar
stored_status = record { conditions = some 2; observed_generation = 2 }

abbrev pub stored_kubeshark : KubesharkVar plain_types
stored_kubeshark = record {
  type_meta = kubeshark_type;
  meta = demo.meta;
  spec = stored_spec;
  status = stored_status;
}

abbrev stored_list : KubesharkListVar plain_types
stored_list = record { type_meta = kubeshark_type; meta = []; items = some 3 }

unfoldable pub cell_at : ℕ → Cell plain_types
cell_at zero = int_cell 2
cell_at (suc zero) = map_cell (("TIMEZONE", "UTC") ∷ [])
cell_at (suc (suc zero)) = conditions_cell (failed_once ∷ [])
cell_at _ = items_cell (stored_kubeshark ∷ [])

abbrev pub heap : Heap (Cell plain_types)
heap = record { next = 4; cells = cell_at }

pub kubeshark_lives : (kubeshark_layout plain_types plain_library).Lives 0 4 heap stored_kubeshark
unfolding cell_at
kubeshark_lives = (
  tt,
  (
    (
      (omega arith, omega arith, tt),
      ((omega arith, omega arith, tt), (tt, ((omega arith, omega arith, tt), (tt, tt)))),
    ),
    (omega arith, omega arith, (tt, tt)),
  ),
)

list_lives : (kubeshark_list_layout plain_types plain_library).Lives 0 4 heap stored_list
unfolding cell_at
list_lives = (tt, (omega arith, omega arith, (kubeshark_lives, tt)))

deep_copy-AllCopyDeeply_example :
    AllCopyDeeply plain_types plain_library heap
      (some stored_kubeshark)
      (some stored_list)
      (some stored_spec)
      (some stored_status)
      (some demo.spec.secret_kubeshark)
deep_copy-AllCopyDeeply_example =
    deep_copy-AllCopyDeeply plain_types plain_library plain-IsCopying heap (some stored_kubeshark)
      (some stored_list) (some stored_spec) (some stored_status) (some demo.spec.secret_kubeshark)
      kubeshark_lives list_lives kubeshark_lives.1.0 kubeshark_lives.1.1

-- What the copy leaves, with the conditions of the resource overwritten in it, and with those of the
-- copy overwritten.
abbrev copied : KubesharkVar plain_types × Heap (Cell plain_types)
copied = kubeshark_deep_copy_into plain_types plain_library stored_kubeshark heap

abbrev ready_now : Cell plain_types
ready_now = conditions_cell (record failed_once { reason = "Reconciled" } ∷ [])

four_are_new : copied.1.next ≡ 8
unfolding kubeshark_deep_copy_into copy_pointer alloc cell_at
four_are_new = refl

kubeshark_deep_copy_into-IsIndependent_example :
    IsIndependent
      (kubeshark_layout plain_types plain_library)
      heap
      stored_kubeshark
      copied.0
      (overwrite 2 ready_now copied.1)
      (overwrite 7 ready_now copied.1)
kubeshark_deep_copy_into-IsIndependent_example =
    kubeshark_deep_copy_into-IsIndependent plain_types plain_library plain-IsCopying heap
      stored_kubeshark (overwrite 2 ready_now copied.1) (overwrite 7 ready_now copied.1)
      kubeshark_lives (overwrite-Agree_above 2 ready_now copied.1 4 copied.1.next (omega arith))
      (overwrite-Agree_below 7 ready_now copied.1 0 4 (omega arith))
