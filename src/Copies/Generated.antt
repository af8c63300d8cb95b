-- ===== src/Copies/Generated.antt =====
-- api/v1beta1/zz_generated.deepcopy.go: the functions that controller-gen has written.
use kubeshark_operator.Common.{Option, none, some}
use kubeshark_operator.Api.{SecretKubesharkSpec}
use kubeshark_operator.Copies.Layout.{Copier}
use kubeshark_operator.Copies.Pointers.{copy_flat, copy_list, copy_pointer}
use kubeshark_operator.Copies.Structs.{
  Foreign, SpecVar, StatusVar, KubesharkVar, KubesharkListVar, Cell, Library, int_at, map_at,
  rules_at, ports_at, conditions_at, items_at, int_cell, map_cell, rules_cell, ports_cell,
  conditions_cell, items_cell,
}

-- `if in == nil { return nil }; out := new(T); in.DeepCopyInto(out); return out`
unfoldable pub deep_copy : {C T : Type 0} → Copier C T → Copier C (Option T)
deep_copy into none h = (none, h)
deep_copy into (some from) h = let (out, h') = into from h in (some out, h')

-- `if c := in.DeepCopy(); c != nil { return c }; return nil`
abbrev pub or_nil : {T : Type 0} → Option T → Option T
or_nil none = none
or_nil (some c) = some c

unfoldable pub deep_copy_object : {C T : Type 0} → Copier C (Option T) → Copier C (Option T)
deep_copy_object copy from h = let (c, h') = copy from h in (or_nil c, h')

unfoldable pub secret_deep_copy_into : {C : Type 0} → Copier C SecretKubesharkSpec
secret_deep_copy_into from h = (from, h)

module _ (F : Foreign) (lib : Library F) where
  unfoldable pub spec_deep_copy_into : Copier (Cell F) SpecVar
  unfolding copy_pointer
  spec_deep_copy_into from h =
      let (replicas, h1) = copy_pointer int_at int_cell copy_flat from.hub_replicas h in
      let (entries, h2) = copy_pointer map_at map_cell copy_flat from.hub_config_map_data h1 in
      let (rules, h3) =
        copy_pointer rules_at rules_cell (copy_list lib.copy_rule) from.cluster_role_rules h2 in
      let (hub_labels, h4) = copy_pointer map_at map_cell copy_flat from.hub_labels h3 in
      let (ports, h5) = copy_pointer ports_at ports_cell copy_flat from.hub_container_ports h4 in
      let (worker_labels, h6) = copy_pointer map_at map_cell copy_flat from.worker_labels h5 in
      (
        record from {
          hub_replicas = replicas;
          hub_config_map_data = entries;
          cluster_role_rules = rules;
          hub_labels = hub_labels;
          hub_container_ports = ports;
          worker_labels = worker_labels;
          secret_kubeshark = from.secret_kubeshark;
        },
        h6,
      )

  unfoldable pub status_deep_copy_into : Copier (Cell F) StatusVar
  unfolding copy_pointer
  status_deep_copy_into from h =
      let (conditions, h1) =
        copy_pointer conditions_at conditions_cell (copy_list lib.copy_condition) from.conditions
          h in
      (record from { conditions = conditions }, h1)

  unfoldable pub kubeshark_deep_copy_into : Copier (Cell F) (KubesharkVar F)
  unfolding spec_deep_copy_into status_deep_copy_into
  kubeshark_deep_copy_into from h =
      let (meta, h1) = lib.copy_meta from.meta h in
      let (spec, h2) = spec_deep_copy_into from.spec h1 in
      let (status, h3) = status_deep_copy_into from.status h2 in
      (record from { meta = meta; spec = spec; status = status }, h3)

  -- `Items` among the fields is copied like the slices of the spec.
  unfoldable pub list_deep_copy_into : Copier (Cell F) (KubesharkListVar F)
  unfolding copy_pointer kubeshark_deep_copy_into
  list_deep_copy_into from h =
      let (meta, h1) = lib.copy_list_meta from.meta h in
      let (items, h2) =
        copy_pointer items_at items_cell (copy_list kubeshark_deep_copy_into) from.items h1 in
      (record from { meta = meta; items = items }, h2)

  unfoldable pub kubeshark_deep_copy : Copier (Cell F) (Option (KubesharkVar F))
  unfolding deep_copy
  kubeshark_deep_copy = deep_copy kubeshark_deep_copy_into

  unfoldable pub kubeshark_deep_copy_object : Copier (Cell F) (Option (KubesharkVar F))
  unfolding deep_copy_object
  kubeshark_deep_copy_object = deep_copy_object kubeshark_deep_copy

  unfoldable pub list_deep_copy : Copier (Cell F) (Option (KubesharkListVar F))
  unfolding deep_copy
  list_deep_copy = deep_copy list_deep_copy_into

  unfoldable pub list_deep_copy_object : Copier (Cell F) (Option (KubesharkListVar F))
  unfolding deep_copy_object
  list_deep_copy_object = deep_copy_object list_deep_copy

  unfoldable pub spec_deep_copy : Copier (Cell F) (Option SpecVar)
  unfolding deep_copy
  spec_deep_copy = deep_copy spec_deep_copy_into

  unfoldable pub status_deep_copy : Copier (Cell F) (Option StatusVar)
  unfolding deep_copy
  status_deep_copy = deep_copy status_deep_copy_into

unfoldable pub secret_deep_copy : {C : Type 0} → Copier C (Option SecretKubesharkSpec)
unfolding deep_copy secret_deep_copy_into
secret_deep_copy = deep_copy secret_deep_copy_into
