-- ===== src/Earlier/Cleanup.antt =====
-- internal/controller/utils.go: what `cleanupResource` leaves.
use kubeshark_operator.Common.{false, none, [], ◌∷◌, ◌≡◌, ◌⊎◌, Error, ok, err}
use kubeshark_operator.Kube.Object.{Ref}
use kubeshark_operator.Api.{Kubeshark}
use kubeshark_operator.Runtime.{Runtime}
use kubeshark_operator.Runtime.Footprint.{Within}
use kubeshark_operator.Earlier.Secret.{cleanup_resource}

-- The object of that kind and name in the resource's namespace.
abbrev pub in_namespace : Kubeshark → Ref → Ref
in_namespace cr r = record r { namespace = cr.meta.namespace }

-- The call writes at most the object of that kind and name in the resource's namespace. Either it
-- returns no error and there is no such object, or it returns an error of the deletion, other than
-- that there was none.
pub record Cleans (R : Runtime) (cr : Kubeshark) (r : Ref) (w : R.World) : Type 0 where
  pub within : Within R (in_namespace cr r ∷ []) (cleanup_resource R cr r)
  pub outcome :
      (((cleanup_resource R cr r w).0 ≡ ok tt)
        × (R.stored (cleanup_resource R cr r w).1 (in_namespace cr r) ≡ none))
      ⊎ ((e : Error) × ((R.delete (in_namespace cr r) w).0 ≡ err e)
          × (e.is_not_found ≡ false)
          × ((cleanup_resource R cr r w).0 ≡ err e))
