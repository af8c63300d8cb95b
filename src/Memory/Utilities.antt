-- ===== src/Memory/Utilities.antt =====
-- Finalizers, conditions and owner references, as lists.
use kubeshark_operator.Common.{
  String, ◌==◌, Bool, true, false, some, List, [], ◌∷◌, ◌≡◌, ◌≢◌, refl, Result, ok, err,
  if◌then◌else◌, exists, arith, eq_iff, inl, inr, Bool-cases,
}
use kubeshark_operator.Kube.Meta.{ObjectMeta, OwnerReference, Condition, is_controlled_by}
use kubeshark_operator.Runtime.Laws.{find_condition}
use kubeshark_operator.Runtime.Available.{IsAdoptable}

abbrev pub contains : List String → String → Bool
contains fs f = exists (λ g. g == f) fs

abbrev pub add : List String → String → List String
add fs f = if contains fs f then fs else f ∷ fs

abbrev pub remove : List String → String → List String
remove [] f = []
remove (g ∷ fs) f = let rest = remove fs f in if g == f then rest else g ∷ rest

pub contains-add : (fs : List String) (f : String) → contains (add fs f) f ≡ true
contains-add fs f = ground (arith, eq_iff f f)

pub contains-remove : (fs : List String) (f : String) → contains (remove fs f) f ≡ false
contains-remove [] f = refl
contains-remove (g ∷ fs) f = ground (arith, contains-remove fs f)

abbrev pub set_condition : List Condition → Condition → List Condition
set_condition [] c = c ∷ []
set_condition (d ∷ cs) c = if d.type == c.type then c ∷ cs else d ∷ set_condition cs c

pub find-set_self :
    (cs : List Condition) (c : Condition) → find_condition (set_condition cs c) c.type ≡ some c
find-set_self [] c = ground (arith, eq_iff c.type c.type)
find-set_self (d ∷ cs) c = ground (arith, eq_iff c.type c.type, find-set_self cs c)

pub find-set_ne :
    (cs : List Condition) (c : Condition) (t : String)
    → c.type ≢ t
    → find_condition (set_condition cs c) t ≡ find_condition cs t
find-set_ne [] c t ne = ground (arith, eq_iff c.type t)
find-set_ne (d ∷ cs) c t ne =
    ground (arith, eq_iff c.type t, eq_iff d.type c.type, eq_iff d.type t, find-set_ne cs c t ne)

abbrev owner_ref : ObjectMeta → OwnerReference
owner_ref owner = record {
  kind = "Kubeshark";
  name = owner.name;
  uid = owner.uid;
  controller = true;
}

-- An object has one controller at most.
abbrev pub set_controller : ObjectMeta → ObjectMeta → Result ObjectMeta
set_controller owner m =
    if is_controlled_by m owner
    then ok m
    else if exists (λ r. r.controller) m.owner_references
    then err (record { is_not_found = false; text = "already owned" })
    else ok (record m { owner_references = owner_ref owner ∷ m.owner_references })

pub set_controller_lem :
    (owner m m' : ObjectMeta)
    → set_controller owner m ≡ ok m'
    → (is_controlled_by m' owner ≡ true)
      × (m' ≡ record m { owner_references = m'.owner_references })
set_controller_lem owner m m' h = ground (arith, eq_iff owner.uid owner.uid)

pub adopt_lem :
    (owner m : ObjectMeta)
    → IsAdoptable owner m
    → (m' : ObjectMeta) × (set_controller owner m ≡ ok m')
adopt_lem owner m (inl ours) = rw ours (m, refl)
adopt_lem owner m (inr free) = elim (Bool-cases (is_controlled_by m owner)) [
  | inl ours ↦ rw ours (m, refl)
  | inr new ↦ rw (new, free) (_, refl)
]
