-- ===== src/Earlier/Apply.antt =====
-- internal/controller/utils.go: what all functions `createOrUpdate` have in common.
use kubeshark_operator.Common.{String, ◌<>◌, Option, Result, ok, err}
use kubeshark_operator.Common.Exec.{Exec}
use kubeshark_operator.Common.Maps.{StringMap}
use kubeshark_operator.Kube.Meta.{ObjectMeta, meta_named}
use kubeshark_operator.Kube.Object.{Kind, ObjectOf, ref_of}
use kubeshark_operator.Runtime.{Runtime, OperationResult}

-- `ObjectMeta{Name: name, Namespace: namespace, Labels: labels}`
abbrev pub meta_labelled : String → String → StringMap → ObjectMeta
meta_labelled name namespace labels = record (meta_named name namespace) { labels = labels }

-- `return desired, fmt.Sprintf("%s <what>", op), nil`. The pointer leads to what the server stored.
abbrev pub describe :
    {A : Type 0} (R : Runtime) → String → A → Result OperationResult → Result (A × String)
describe R what a (err e) = err e
describe R what a (ok op) = ok (a, R.operation_text op <> what)

-- `CreateOrUpdate`, and the description of what it did.
unfoldable pub applied :
    (R : Runtime) (k : Kind)
    → ObjectOf k
    → (ObjectOf k → Result (ObjectOf k))
    → String
    → Exec R.World (Option (ObjectOf k) × String)
applied R k o mutate what w =
    let (res, w') = R.create_or_update k o mutate w in
    (describe R what (R.stored w' (ref_of k o)) res, w')
