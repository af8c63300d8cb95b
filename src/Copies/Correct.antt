-- ===== src/Copies/Correct.antt =====
-- api/v1beta1/zz_generated.deepcopy.go: a copy reads the same, and shares nothing with what was
-- copied.
use kubeshark_operator.Common.{◌≡◌, refl, none, some, []}
use kubeshark_operator.Copies.Layout.{IsDeepCopy, pair_layout, copy_pair-IsDeepCopy}
use kubeshark_operator.Copies.Pointers.{
  flat_layout, copy_flat-IsDeepCopy, copy_struct-IsDeepCopy, list_layout, copy_list-IsDeepCopy,
  pointer_layout, copy_pointer, copy_pointer-IsDeepCopy,
}
use kubeshark_operator.Copies.Structs.{
  Foreign, Cell, Library, IsCopying, int_at, map_at, rules_at, ports_at, conditions_at, items_at,
  int_cell, map_cell, rules_cell, ports_cell, conditions_cell, items_cell,
}
use kubeshark_operator.Copies.Generated.{
  spec_deep_copy_into, status_deep_copy_into, kubeshark_deep_copy_into, list_deep_copy_into,
}
use kubeshark_operator.Copies.Values.{
  spec_pointers, with_spec_pointers, spec_of, status_of, kubeshark_of, int_layout, data_layout,
  map_layout, ports_layout, rules_layout, conditions_layout, spec_layout, status_layout,
  kubeshark_layout, kubeshark_list_layout,
}

module _ (F : Foreign) (lib : Library F) (L : IsCopying F lib) where
  flat_pointer :
      {X W : Type 0} (read : Cell F → X) (write : X → Cell F) (nil : W) (view : X → W)
      → ((x : X) → read (write x) ≡ x)
      → IsDeepCopy
          (pointer_layout flat_layout read nil view)
          (copy_pointer read write (λ t h. (t, h)))
  flat_pointer read write nil view again =
      copy_pointer-IsDeepCopy flat_layout read write nil view (λ t h. (t, h)) again
        copy_flat-IsDeepCopy

  pub spec-IsDeepCopy : IsDeepCopy (spec_layout F lib) (spec_deep_copy_into F lib)
  unfolding spec_deep_copy_into
  spec-IsDeepCopy =
      copy_struct-IsDeepCopy _ spec_pointers spec_of with_spec_pointers _ (λ s t. refl)
        (λ s t v. refl)
        (copy_pair-IsDeepCopy (int_layout F lib) _ _ _
          (flat_pointer int_at int_cell none (λ n. some n) (λ x. refl))
          (copy_pair-IsDeepCopy (data_layout F lib) _ _ _
            (flat_pointer map_at map_cell none (λ n. some n) (λ x. refl))
            (copy_pair-IsDeepCopy (rules_layout F lib) _ _ _
              (copy_pointer-IsDeepCopy (list_layout lib.rule_layout) rules_at rules_cell [] (λ m. m)
                _ (λ x. refl) (copy_list-IsDeepCopy lib.rule_layout lib.copy_rule L.rule))
              (copy_pair-IsDeepCopy (map_layout F lib) _ _ _
                (flat_pointer map_at map_cell [] (λ n. n) (λ x. refl))
                (copy_pair-IsDeepCopy (ports_layout F lib) (map_layout F lib) _ _
                  (flat_pointer ports_at ports_cell [] (λ n. n) (λ x. refl))
                  (flat_pointer map_at map_cell [] (λ n. n) (λ x. refl)))))))

  pub status-IsDeepCopy : IsDeepCopy (status_layout F lib) (status_deep_copy_into F lib)
  unfolding status_deep_copy_into
  status-IsDeepCopy =
      copy_struct-IsDeepCopy (conditions_layout F lib) (λ s. s.conditions) status_of
        (λ s t. record s { conditions = t }) _ (λ s t. refl) (λ s t v. refl)
        (copy_pointer-IsDeepCopy (list_layout lib.condition_layout) conditions_at conditions_cell []
          (λ m. m) _ (λ x. refl)
          (copy_list-IsDeepCopy lib.condition_layout lib.copy_condition L.condition))

  pub kubeshark-IsDeepCopy : IsDeepCopy (kubeshark_layout F lib) (kubeshark_deep_copy_into F lib)
  unfolding kubeshark_deep_copy_into
  kubeshark-IsDeepCopy =
      copy_struct-IsDeepCopy
        (pair_layout lib.meta_layout (pair_layout (spec_layout F lib) (status_layout F lib)))
        (λ k. (k.meta, (k.spec, k.status))) kubeshark_of
        (λ k t. record k { meta = t.0; spec = t.1.0; status = t.1.1 }) _ (λ s t. refl)
        (λ s t v. refl)
        (copy_pair-IsDeepCopy lib.meta_layout _ _ _ L.meta (
          copy_pair-IsDeepCopy (spec_layout F lib) (status_layout F lib) _ _ spec-IsDeepCopy
            status-IsDeepCopy))

  pub list-IsDeepCopy : IsDeepCopy (kubeshark_list_layout F lib) (list_deep_copy_into F lib)
  unfolding list_deep_copy_into
  list-IsDeepCopy =
      copy_struct-IsDeepCopy
        (pair_layout lib.list_meta_layout
          (pointer_layout (list_layout (kubeshark_layout F lib)) items_at [] (λ m. m)))
        (λ k. (k.meta, k.items)) (λ k v. (k.type_meta, v))
        (λ k t. record k { meta = t.0; items = t.1 }) _ (λ s t. refl) (λ s t v. refl)
        (copy_pair-IsDeepCopy lib.list_meta_layout _ _ _ L.list_meta (
          copy_pointer-IsDeepCopy (list_layout (kubeshark_layout F lib)) items_at items_cell []
            (λ m. m) _ (λ x. refl)
            (copy_list-IsDeepCopy (kubeshark_layout F lib) (kubeshark_deep_copy_into F lib)
              kubeshark-IsDeepCopy)))
