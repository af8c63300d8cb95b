-- ===== src/Runtime/Laws.antt =====
-- The documented behaviour of the operations, as far as the operator relies on it. Reads are taken
-- to be up to date, and no other client writes while one call of Reconcile runs.
use kubeshark_operator.Common.{
  ℕ, String, ◌==◌, Bool, true, false, ◌&&◌, Option, none, some, List, [], ◌∷◌, ◌≡◌, ◌≢◌, ◌⊎◌, Error,
  Result, ok, err, if◌then◌else◌,
}
use kubeshark_operator.Kube.Meta.{ObjectMeta, Condition, NamespacedName}
use kubeshark_operator.Kube.Meta.{is_controlled_by}
use kubeshark_operator.Kube.Object.{Kind, ObjectOf, Ref, ref_of, same_ref}
use kubeshark_operator.Api.{KubesharkSpec, Kubeshark, key_of}
use kubeshark_operator.Runtime.{Runtime, OperationResult}

-- What the mutate function is given: the stored object, or the one that the caller made.
abbrev pub found_or {ℓ} : {A : Type ℓ} → Option A → A → A
found_or none a = a
found_or (some b) a = b

abbrev pub same_key : NamespacedName → NamespacedName → Bool
same_key a b = a.namespace == b.namespace && a.name == b.name

abbrev pub finalizers_of : Option Kubeshark → Option (List String)
finalizers_of none = none
finalizers_of (some c) = some c.meta.finalizers

-- `meta.FindStatusCondition`
abbrev pub find_condition : List Condition → String → Option Condition
find_condition [] t = none
find_condition (c ∷ cs) t = if c.type == t then some c else find_condition cs t

-- A condition with another one's content. Its transition time may differ.
pub record Reports (c d : Condition) : Type 0 where
  pub type : d.type ≡ c.type
  pub status : d.status ≡ c.status
  pub observed_generation : d.observed_generation ≡ c.observed_generation
  pub reason : d.reason ≡ c.reason
  pub message : d.message ≡ c.message

-- Controlled objects, finalizers and conditions.
pub record HasUtilities (R : Runtime) : Type 0 where
  pub set_controller :
      (owner m m' : ObjectMeta)
      → R.set_controller_reference owner m ≡ ok m'
      → (is_controlled_by m' owner ≡ true)
        × (m' ≡ record m { owner_references = m'.owner_references })
  -- The owner's own reference is there already.
  pub set_controller_again :
      (owner m : ObjectMeta)
      → is_controlled_by m owner ≡ true
      → R.set_controller_reference owner m ≡ ok m
  pub contains-add :
      (fs : List String) (f : String) → R.contains_finalizer (R.add_finalizer fs f) f ≡ true
  pub contains-remove :
      (fs : List String) (f : String) → R.contains_finalizer (R.remove_finalizer fs f) f ≡ false
  pub find-set :
      (cs : List Condition) (c : Condition)
      → (d : Condition) × (find_condition (R.set_status_condition cs c) c.type ≡ some d)
        × Reports c d
  pub find-set_ne :
      (cs : List Condition) (c : Condition) (t : String)
      → c.type ≢ t
      → find_condition (R.set_status_condition cs c) t ≡ find_condition cs t

-- Each operation leaves alone what it does not name, whether it succeeds or fails.
pub record HasFrames (R : Runtime) : Type 0 where
  pub get : (key : NamespacedName) (w : R.World) → (R.get key w).1 ≡ w
  pub update_stored :
      (cr : Kubeshark) (w : R.World) (r : Ref) → R.stored (R.update cr w).1 r ≡ R.stored w r
  pub update_others :
      (cr : Kubeshark) (w : R.World) (key : NamespacedName)
      → same_key (key_of cr) key ≡ false
      → R.kubeshark (R.update cr w).1 key ≡ R.kubeshark w key
  pub patch_stored :
      (orig cr : Kubeshark) (w : R.World) (r : Ref)
      → R.stored (R.patch_status orig cr w).1 r ≡ R.stored w r
  pub patch_others :
      (orig cr : Kubeshark) (w : R.World) (key : NamespacedName)
      → same_key (key_of cr) key ≡ false
      → R.kubeshark (R.patch_status orig cr w).1 key ≡ R.kubeshark w key
  pub delete_others :
      (d : Ref) (w : R.World) (r : Ref)
      → same_ref d r ≡ false
      → R.stored (R.delete d w).1 r ≡ R.stored w r
  pub delete_kubeshark :
      (d : Ref) (w : R.World) (key : NamespacedName)
      → R.kubeshark (R.delete d w).1 key ≡ R.kubeshark w key
  pub apply_others :
      (k : Kind) (o : ObjectOf k) (f : ObjectOf k → Result (ObjectOf k)) (w : R.World) (r : Ref)
      → same_ref (ref_of k o) r ≡ false
      → R.stored (R.create_or_update k o f w).1 r ≡ R.stored w r
  pub apply_kubeshark :
      (k : Kind) (o : ObjectOf k) (f : ObjectOf k → Result (ObjectOf k)) (w : R.World)
      (key : NamespacedName)
      → R.kubeshark (R.create_or_update k o f w).1 key ≡ R.kubeshark w key

-- The stored spec is the submitted one, but for two fields. The schema gives `hubReplicas` the
-- default 1, and an empty `hubConfigMapData` is not written at all: its JSON tag has `omitempty`.
pub record KeepsSpec (s t : KubesharkSpec) : Type 0 where
  pub replicas :
      (t.hub_replicas ≡ s.hub_replicas) ⊎ ((s.hub_replicas ≡ none) × (t.hub_replicas ≡ some 1))
  pub entries :
      (t.hub_config_map_data ≡ s.hub_config_map_data)
      ⊎ ((s.hub_config_map_data ≡ some []) × (t.hub_config_map_data ≡ none))
  pub others :
      t ≡ record s { hub_replicas = t.hub_replicas; hub_config_map_data = t.hub_config_map_data }

-- The stored resource has what the client submitted. What no client may change is as the client
-- had read it.
pub record Keeps (cr c : Kubeshark) : Type 0 where
  pub key : key_of c ≡ key_of cr
  pub uid : c.meta.uid ≡ cr.meta.uid
  pub deletion_timestamp : c.meta.deletion_timestamp ≡ cr.meta.deletion_timestamp
  pub finalizers : c.meta.finalizers ≡ cr.meta.finalizers
  pub spec : KeepsSpec cr.spec c.spec

-- What an operation that reports success has done.
pub record HasEffects (R : Runtime) : Type 0 where
  pub get :
      (key : NamespacedName) (w : R.World) (cr : Kubeshark)
      → (R.get key w).0 ≡ ok cr
      → (R.kubeshark w key ≡ some cr) × (key_of cr ≡ key)
  -- The object that the mutate function makes of what is there is stored.
  pub apply :
      (k : Kind) (o : ObjectOf k) (f : ObjectOf k → Result (ObjectOf k)) (w : R.World)
      (res : OperationResult)
      → (R.create_or_update k o f w).0 ≡ ok res
      → (s t : ObjectOf k) × (f (found_or (R.stored w (ref_of k o)) o) ≡ ok s)
        × (R.stored (R.create_or_update k o f w).1 (ref_of k o) ≡ some t)
        × R.Realises k s t
  -- Where the mutate function refuses, nothing is written.
  pub apply_refused :
      (k : Kind) (o : ObjectOf k) (f : ObjectOf k → Result (ObjectOf k)) (w : R.World) (e : Error)
      → f (found_or (R.stored w (ref_of k o)) o) ≡ err e
      → (r : Ref) → R.stored (R.create_or_update k o f w).1 r ≡ R.stored w r
  -- The objects that the operator deletes are taken to hold no finalizers of their own, with which
  -- they would stay until those are removed.
  pub delete :
      (r : Ref) (w : R.World) → (R.delete r w).0 ≡ ok tt → R.stored (R.delete r w).1 r ≡ none
  pub delete_absent :
      (r : Ref) (w : R.World) (e : Error)
      → (R.delete r w).0 ≡ err e
      → e.is_not_found ≡ true
      → R.stored (R.delete r w).1 r ≡ none
  -- A stored resource keeps the metadata that it was given. One that is being deleted vanishes
  -- with its last finalizer; a live one stays.
  pub update :
      (cr : Kubeshark) (w : R.World) (c : Kubeshark)
      → (R.update cr w).0 ≡ ok tt
      → R.kubeshark (R.update cr w).1 (key_of cr) ≡ some c
      → Keeps cr c
  pub update_live :
      (cr : Kubeshark) (w : R.World)
      → (R.update cr w).0 ≡ ok tt
      → cr.meta.deletion_timestamp ≡ none
      → R.kubeshark (R.update cr w).1 (key_of cr) ≢ none
  pub update_gone :
      (cr : Kubeshark) (w : R.World) (t : ℕ)
      → (R.update cr w).0 ≡ ok tt
      → cr.meta.deletion_timestamp ≡ some t
      → cr.meta.finalizers ≡ []
      → R.kubeshark (R.update cr w).1 (key_of cr) ≡ none
  -- The patch holds what differs between the two statuses. It concerns the status only.
  pub patch :
      (orig cr : Kubeshark) (w : R.World) (c : Kubeshark)
      → (R.patch_status orig cr w).0 ≡ ok tt
      → R.kubeshark w (key_of cr) ≡ some c
      → c.status ≡ orig.status
      → (c' : Kubeshark) × (R.kubeshark (R.patch_status orig cr w).1 (key_of cr) ≡ some c')
        × (c'.status ≡ cr.status)
        × (c'.spec ≡ c.spec)
        × (c'.meta.finalizers ≡ c.meta.finalizers)
  pub patch_finalizers :
      (orig cr : Kubeshark) (w : R.World)
      → finalizers_of (R.kubeshark (R.patch_status orig cr w).1 (key_of cr))
        ≡ finalizers_of (R.kubeshark w (key_of cr))

pub record IsLawful (R : Runtime) : Type 0 where
  pub utilities : HasUtilities R
  pub frames : HasFrames R
  pub effects : HasEffects R
