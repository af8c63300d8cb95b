-- ===== src/Memory/Server.antt =====
-- The operations of the client on a cluster in memory.
use kubeshark_operator.Common.{
  String, Bool, true, false, Option, none, some, List, [], ◌∷◌, Result, ok, err, Error, ℕ,
  if◌then◌else◌,
}
use kubeshark_operator.Common.Exec.{Exec}
use kubeshark_operator.Kube.Meta.{NamespacedName}
use kubeshark_operator.Kube.Object.{Kind, ObjectOf, Ref, ref_of}
use kubeshark_operator.Api.{Kubeshark, key_of}
use kubeshark_operator.Runtime.{OperationResult, unchanged, created, updated}
use kubeshark_operator.Runtime.Laws.{found_or, same_key}
use kubeshark_operator.Memory.Store.{Objects, at, put}

pub record World : Type 0 where
  pub objects : Objects
  pub resources : NamespacedName → Option Kubeshark

abbrev pub not_found : Error
not_found = record { is_not_found = true; text = "not found" }

abbrev pub forbidden : Error
forbidden = record { is_not_found = false; text = "forbidden" }

abbrev pub read : NamespacedName → Option Kubeshark → Result Kubeshark
read key none = err not_found
read key (some cr) = if same_key (key_of cr) key then ok cr else err not_found

abbrev pub set_resource :
    (NamespacedName → Option Kubeshark)
    → NamespacedName
    → Option Kubeshark
    → NamespacedName
    → Option Kubeshark
set_resource f key c k = if same_key key k then c else f k

-- A resource that is being deleted goes with its last finalizer.
abbrev pub kept : Option ℕ → List String → Kubeshark → Option Kubeshark
kept none fs cr = some cr
kept (some t) [] cr = none
kept (some t) (f ∷ fs) cr = some cr

abbrev pub write : Option Kubeshark → Option Kubeshark → Kubeshark → Exec World (Unit {0})
write none c cr w = (err not_found, w)
write (some old) c cr w = (ok tt, record w { resources = set_resource w.resources (key_of cr) c })

abbrev pub remove_object : (r : Ref) → Option (ObjectOf r.kind) → Exec World (Unit {0})
remove_object r none w = (err not_found, w)
remove_object r (some o) w =
    (ok tt, record w { objects = put r.kind r.namespace r.name none w.objects })

abbrev pub submit : (r : Ref) → Result (ObjectOf r.kind) → Exec World OperationResult
submit r (err e) w = (err e, w)
submit r (ok s) w =
    (ok created, record w { objects = put r.kind r.namespace r.name (some s) w.objects })

abbrev pub with_status_of : Kubeshark → Option Kubeshark → Option Kubeshark
with_status_of cr none = none
with_status_of cr (some c) = some (record c { status = cr.status })

abbrev pub operation_text : OperationResult → String
operation_text unchanged = "unchanged"
operation_text created = "created"
operation_text updated = "updated"

module _ (deny : Ref → Bool) where
  unfoldable pub update : Kubeshark → Exec World (Unit {0})
  update cr w =
      write (w.resources (key_of cr)) (kept cr.meta.deletion_timestamp cr.meta.finalizers cr) cr w

  unfoldable pub patch_status : Kubeshark → Kubeshark → Exec World (Unit {0})
  patch_status orig cr w =
      write (w.resources (key_of cr)) (with_status_of cr (w.resources (key_of cr))) cr w

  unfoldable pub delete : Ref → Exec World (Unit {0})
  delete r w = if deny r then (err forbidden, w) else remove_object r (at w.objects r) w

  unfoldable pub create_or_update :
      (k : Kind) → ObjectOf k → (ObjectOf k → Result (ObjectOf k)) → Exec World OperationResult
  create_or_update k o f w =
      if deny (ref_of k o)
      then (err forbidden, w)
      else submit (ref_of k o) (f (found_or (at w.objects (ref_of k o)) o)) w
