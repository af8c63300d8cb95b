-- ===== src/Tests/Patches.antt =====
-- `setReadyCondition` on a heap, with a library that overwrites the conditions in place.
use kubeshark_operator.Common.{
  ℕ, true, Option, none, some, List, [], ◌∷◌, map, ◌≡◌, refl, ◌≤◌, arith,
}
use kubeshark_operator.Kube.Meta.{Condition}
use kubeshark_operator.Copies.Heap.{
  Heap, Agree, alloc, alloc-cell, alloc-Agree, overwrite, overwrite-cell, overwrite-Agree_above,
  overwrite-Agree_below,
}
use kubeshark_operator.Copies.Structs.{Cell, conditions_cell}
use kubeshark_operator.Copies.Values.{conditions_layout}
use kubeshark_operator.Copies.Ready.{
  StatusLibrary, IsSetting, PatchesStatus, before_patch, before_patch-PatchesStatus,
}
use kubeshark_operator.Tests.{permissive}
use kubeshark_operator.Tests.Heaps.{
  plain_types, plain_library, plain-IsCopying, stored_kubeshark, heap, cell_at,
}

abbrev conditions_of : Heap (Cell plain_types) → Option ℕ → List Condition
conditions_of h cs = (conditions_layout plain_types plain_library).value h cs

abbrev set_in_place :
    Option ℕ → Condition → Heap (Cell plain_types) → Option ℕ × Heap (Cell plain_types)
set_in_place none c h =
    let (a, h') = alloc (conditions_cell (permissive.set_status_condition [] c)) h in (some a, h')
set_in_place (some a) c h = (
  some a,
  overwrite a (conditions_cell (permissive.set_status_condition (conditions_of h (some a)) c)) h,
)

map_same : (cs : List Condition) → map (λ c. c) cs ≡ cs
map_same [] = refl
map_same (c ∷ cs) = rw (map_same cs)

abbrev in_place : StatusLibrary plain_types
in_place = record { set_status_condition = set_in_place; generation = λ m. m.generation }

in_place-sets :
    (cs : Option ℕ) (c : Condition) (h : Heap (Cell plain_types))
    → conditions_of (set_in_place cs c h).1 (set_in_place cs c h).0
      ≡ permissive.set_status_condition (conditions_of h cs) c
unfolding alloc
in_place-sets none c h = rw (alloc-cell (conditions_cell (c ∷ [])) h) refl
in_place-sets (some a) c h = rw (overwrite-cell a _ h) (map_same _)

in_place-before :
    (cs : Option ℕ) (c : Condition) (h : Heap (Cell plain_types)) (lo hi : ℕ)
    → lo ≤ hi
    → hi ≤ h.next
    → (conditions_layout plain_types plain_library).Lives lo hi h cs
    → Agree 0 lo (set_in_place cs c h).1 h
in_place-before none c h lo hi le in_heap l =
    λ a low high. alloc-Agree _ h a low (omega (arith, le, in_heap, high))
in_place-before (some b) c h lo hi le in_heap l = overwrite-Agree_below b _ h 0 lo l.0

in_place-after :
    (cs : Option ℕ) (c : Condition) (h : Heap (Cell plain_types)) (lo hi : ℕ)
    → lo ≤ hi
    → hi ≤ h.next
    → (conditions_layout plain_types plain_library).Lives lo hi h cs
    → Agree hi h.next (set_in_place cs c h).1 h
in_place-after none c h lo hi le in_heap l = λ a low high. alloc-Agree _ h a (omega arith) high
in_place-after (some b) c h lo hi le in_heap l = overwrite-Agree_above b _ h hi h.next l.1

in_place-IsSetting : IsSetting plain_types plain_library permissive in_place
in_place-IsSetting = record {
  sets = λ cs c h lo hi le in_heap l. in_place-sets cs c h;
  before = in_place-before;
  after = in_place-after;
  reads = λ h m. refl;
}

before_patch-PatchesStatus_example :
    PatchesStatus plain_types plain_library permissive heap stored_kubeshark true "Reconciled"
      "All components reconciled"
      (before_patch plain_types plain_library in_place true "Reconciled" "All components reconciled"
        stored_kubeshark heap)
unfolding cell_at
before_patch-PatchesStatus_example =
    before_patch-PatchesStatus plain_types plain_library plain-IsCopying permissive in_place
      in_place-IsSetting stored_kubeshark heap 2 true "Reconciled" "All components reconciled"
      (omega arith) tt
      (
        (omega arith, omega arith, tt),
        ((omega arith, omega arith, tt), (tt, ((omega arith, omega arith, tt), (tt, tt)))),
      )
      (omega arith, omega arith, (tt, tt))
