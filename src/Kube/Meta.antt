-- ===== src/Kube/Meta.antt =====
-- `metav1.ObjectMeta`, `metav1.OwnerReference` and `metav1.Condition`.
use kubeshark_operator.Common.{ℕ, String, ◌==◌, Bool, ◌&&◌, Option, none, List, [], exists}
use kubeshark_operator.Common.Maps.{StringMap}

-- The serialised form of the fields that the operator leaves alone.
abbrev pub Untouched : Type 0
Untouched = List (String × String)

pub record OwnerReference : Type 0 where
  pub kind : String
  pub name : String
  pub uid : String
  pub controller : Bool

pub record ObjectMeta : Type 0 where
  pub name : String
  pub namespace : String
  pub uid : String
  pub generation : ℕ
  pub creation_timestamp : Option ℕ
  pub deletion_timestamp : Option ℕ
  pub labels : StringMap
  pub annotations : StringMap
  pub owner_references : List OwnerReference
  pub finalizers : List String
  pub other : Untouched

-- `ObjectMeta{Name: name, Namespace: namespace}`
abbrev pub meta_named : String → String → ObjectMeta
meta_named name namespace = record {
  name = name;
  namespace = namespace;
  uid = "";
  generation = 0;
  creation_timestamp = none;
  deletion_timestamp = none;
  labels = [];
  annotations = [];
  owner_references = [];
  finalizers = [];
  other = [];
}

-- `metav1.IsControlledBy`: an owner reference with `controller` set names the owner.
abbrev pub is_controlled_by : ObjectMeta → ObjectMeta → Bool
is_controlled_by object owner =
    exists (λ r. r.controller && r.uid == owner.uid) object.owner_references

pub record NamespacedName : Type 0 where
  pub namespace : String
  pub name : String

pub data ConditionStatus : Type 0 where
  condition_true condition_false condition_unknown : ConditionStatus

pub record Condition : Type 0 where
  pub type : String
  pub status : ConditionStatus
  pub observed_generation : ℕ
  pub last_transition_time : Option ℕ
  pub reason : String
  pub message : String
