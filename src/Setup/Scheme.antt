-- ===== src/Setup/Scheme.antt =====
-- api/v1beta1/groupversion_info.go, and `init` of api/v1beta1/kubeshark_types.go.
use kubeshark_operator.Common.{String, List, [], ◌∷◌, Result}

-- `schema.GroupVersion`
pub record GroupVersion : Type 0 where
  pub group : String
  pub version : String

unfoldable pub scheme_group_version : GroupVersion
scheme_group_version = record { group = "kubeshark.opstreelabs.in"; version = "v1beta1" }

-- The arguments of `SchemeBuilder.Register`.
unfoldable pub registered : List String
registered = "Kubeshark" ∷ "KubesharkList" ∷ []

-- `SchemeBuilder.AddToScheme`; the builder is the library's.
unfoldable pub add_to_scheme :
    {Scheme : Type 0}
    → (GroupVersion → List String → Scheme → Result Scheme)
    → Scheme
    → Result Scheme
unfolding scheme_group_version registered
add_to_scheme build = build scheme_group_version registered
