-- ===== src/Copies/Ready.antt =====
-- internal/controller/status.go on a heap: `setReadyCondition` copies the resource, changes it in
-- place, and hands both to `Patch`.
use kubeshark_operator.Common.{ℕ, String, Bool, none, ◌≤◌, ◌≡◌, refl, ◌∙◌, Option, arith}
use kubeshark_operator.Kube.Meta.{Condition}
use kubeshark_operator.Runtime.{Runtime}
use kubeshark_operator.Status.{status_of, ready_status}
use kubeshark_operator.Copies.Heap.{Heap, Agree}
use kubeshark_operator.Copies.Structs.{Foreign, KubesharkVar, Cell, Library, IsCopying}
use kubeshark_operator.Copies.Generated.{kubeshark_deep_copy_into}
use kubeshark_operator.Copies.Values.{
  spec_layout, status_layout, conditions_layout, kubeshark_layout,
}
use kubeshark_operator.Copies.Correct.{kubeshark-IsDeepCopy}

module _ (F : Foreign) where
  -- `meta.SetStatusCondition` on a slice in the heap, and the field `Generation` of the metadata.
  pub record StatusLibrary : Type 0 where
    pub set_status_condition : Option ℕ → Condition → Heap (Cell F) → Option ℕ × Heap (Cell F)
    pub generation : F.MetaVar → ℕ

  -- The slice holds afterwards what `Runtime` says. Of the cells that were there, only those of the
  -- slice are written.
  pub record IsSetting (lib : Library F) (R : Runtime) (S : StatusLibrary) : Type 0 where
    pub sets :
        (cs : Option ℕ) (c : Condition) (h : Heap (Cell F)) (lo hi : ℕ)
        → lo ≤ hi
        → hi ≤ h.next
        → (conditions_layout F lib).Lives lo hi h cs
        → (conditions_layout F lib).value
            (S.set_status_condition cs c h).1
            (S.set_status_condition cs c h).0
          ≡ R.set_status_condition ((conditions_layout F lib).value h cs) c
    pub before :
        (cs : Option ℕ) (c : Condition) (h : Heap (Cell F)) (lo hi : ℕ)
        → lo ≤ hi
        → hi ≤ h.next
        → (conditions_layout F lib).Lives lo hi h cs
        → Agree 0 lo (S.set_status_condition cs c h).1 h
    pub after :
        (cs : Option ℕ) (c : Condition) (h : Heap (Cell F)) (lo hi : ℕ)
        → lo ≤ hi
        → hi ≤ h.next
        → (conditions_layout F lib).Lives lo hi h cs
        → Agree hi h.next (S.set_status_condition cs c h).1 h
    pub reads :
        (h : Heap (Cell F)) (m : F.MetaVar)
        → (lib.meta_layout.value h m).generation ≡ S.generation m

  module _ (lib : Library F) (S : StatusLibrary) (ready : Bool) (reason message : String) where
    abbrev condition_var : KubesharkVar F → Condition
    condition_var cr = record {
      type = "Ready";
      status = status_of ready;
      observed_generation = S.generation cr.meta;
      last_transition_time = none;
      reason = reason;
      message = message;
    }

    -- `orig` and `cr` as `Patch` gets them, and the heap.
    unfoldable pub before_patch :
        KubesharkVar F → Heap (Cell F) → KubesharkVar F × (KubesharkVar F × Heap (Cell F))
    unfolding kubeshark_deep_copy_into
    before_patch cr h =
        let (orig, h1) = kubeshark_deep_copy_into F lib cr h in
        let (conditions, h2) = S.set_status_condition cr.status.conditions (condition_var cr) h1 in
        (
          orig,
          (
            record cr {
              status = record {
                conditions = conditions;
                observed_generation = S.generation cr.meta;
              };
            },
            h2,
          ),
        )

-- What `Patch` reads through its two arguments: the resource as it was, and the same with the status
-- that `Status` describes.
pub record PatchesStatus (F : Foreign) (lib : Library F) (R : Runtime) (h : Heap (Cell F))
    (cr : KubesharkVar F) (ready : Bool) (reason message : String)
    (out : KubesharkVar F × (KubesharkVar F × Heap (Cell F))) : Type 0 where
  pub orig : (kubeshark_layout F lib).value out.1.1 out.0 ≡ (kubeshark_layout F lib).value h cr
  pub changed : (kubeshark_layout F lib).value out.1.1 out.1.0 ≡ (
    cr.type_meta,
    record ((kubeshark_layout F lib).value h cr).1 {
      status = ready_status R ((kubeshark_layout F lib).value h cr).1 ready reason message;
    },
  )

module _ (F : Foreign) (lib : Library F) (L : IsCopying F lib) (R : Runtime) (S : StatusLibrary F)
    (C : IsSetting F lib R S) (cr : KubesharkVar F) (h : Heap (Cell F)) (m : ℕ) where
  -- For every heap in which the metadata and the spec of a resource lie below an address and its
  -- conditions from there on, where the other packages' functions do as documented: what
  -- `setReadyCondition` hands to `Patch` reads as the resource that it was given and as the same
  -- resource with the new status, although the conditions may have been changed in place.
  pub before_patch-PatchesStatus :
      (ready : Bool) (reason message : String)
      → m ≤ h.next
      → lib.meta_layout.Lives 0 m h cr.meta
      → (spec_layout F lib).Lives 0 m h cr.spec
      → (status_layout F lib).Lives m h.next h cr.status
      → PatchesStatus F lib R h cr ready reason message
          (before_patch F lib S ready reason message cr h)
  unfolding before_patch ready_status
  before_patch-PatchesStatus ready reason message le meta spec status =
      let n = h.next in
      let M = lib.meta_layout in
      let P = spec_layout F lib in
      let T = conditions_layout F lib in
      let h1 = (kubeshark_deep_copy_into F lib cr h).1 in
      let out = (kubeshark_deep_copy_into F lib cr h).0 in
      let c = condition_var F lib S ready reason message cr in
      let h2 = (S.set_status_condition cr.status.conditions c h1).1 in
      let copied = kubeshark-IsDeepCopy F lib L cr h (
        M.Lives-widen 0 m 0 n h cr.meta (omega arith) le meta,
        (
          P.Lives-widen 0 m 0 n h cr.spec (omega arith) le spec,
          T.Lives-widen m n 0 n h cr.status.conditions (omega arith) (omega arith) status,
        ),
      ) in
      let old = copied.old in
      let there : T.Lives m n h1 cr.status.conditions =
        T.Lives-Agree m n h1 h cr.status.conditions status (λ a lo hi. old a (omega arith) hi) in
      let below : Agree 0 m h2 h = λ a lo hi.
        C.before cr.status.conditions c h1 m n le copied.grows there a lo hi
        ∙ old a lo (omega (arith, hi, le)) in
      record {
        orig =
            (kubeshark_layout F lib).value-Agree n h1.next h2 h1 out copied.fresh
              (C.after cr.status.conditions c h1 m n le copied.grows there)
            ∙ copied.same;
        changed =
            rw
              (
                M.value-Agree 0 m h2 h cr.meta meta below,
                P.value-Agree 0 m h2 h cr.spec spec below,
                C.sets cr.status.conditions c h1 m n le copied.grows there,
                T.value-Agree m n h1 h cr.status.conditions status
                    (λ a lo hi. old a (omega arith) hi),
                C.reads h cr.meta,
              )
              refl;
      }
