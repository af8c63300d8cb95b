-- ===== src/Earlier/Secret.antt =====
-- internal/controller/utils.go: `createOrUpdateKubesharkSecret` and `cleanupResource`.
use kubeshark_operator.Common.{String, Option, none, some, [], Result, ok}
use kubeshark_operator.Common.Exec.{Exec, wrap_error}
use kubeshark_operator.Common.Maps.{StringMap, insert}
use kubeshark_operator.Kube.Access.{Secret, secret_of}
use kubeshark_operator.Kube.Object.{Ref, secret}
use kubeshark_operator.Api.{Kubeshark, SecretKubesharkSpec}
use kubeshark_operator.Names.{get_or_default_string}
use kubeshark_operator.Runtime.{Runtime}
use kubeshark_operator.Finalizer.{ignore_not_found}
use kubeshark_operator.Earlier.Apply.{meta_labelled, applied}

unfoldable pub secret_object : Kubeshark → StringMap → Secret
secret_object cr labels = secret_of (meta_labelled "kubeshark-secret" cr.meta.namespace labels)

unfoldable pub empty_if_nil : Option StringMap → StringMap
empty_if_nil none = []
empty_if_nil (some m) = m

unfoldable pub put_keys : SecretKubesharkSpec → StringMap → StringMap
unfolding get_or_default_string
put_keys sk m =
    insert "OIDC_CLIENT_SECRET" (get_or_default_string sk.oidc_client_secret "not set") (
      insert "OIDC_CLIENT_ID" (get_or_default_string sk.oidc_client_id "not set") (
        insert "SCRIPTING_ENV" (get_or_default_string sk.scripting_env_json "{}")
          (insert "LICENSE" (get_or_default_string sk.license "") m)))

unfoldable pub mutate_kubeshark_secret : Kubeshark → Secret → Result Secret
unfolding empty_if_nil put_keys
mutate_kubeshark_secret cr sec = ok (record sec {
  type = "Opaque";
  string_data = some (put_keys cr.spec.secret_kubeshark (empty_if_nil sec.string_data));
})

unfoldable pub create_or_update_kubeshark_secret :
    (R : Runtime) → Kubeshark → StringMap → Exec R.World (Option Secret × String)
create_or_update_kubeshark_secret R cr labels =
    wrap_error "failed to create or update Secret"
      (applied R secret (secret_object cr labels) (mutate_kubeshark_secret cr) " kubeshark-secret")

-- The object is looked for in the resource's namespace, whatever its own is.
unfoldable pub cleanup_resource : (R : Runtime) → Kubeshark → Ref → Exec R.World (Unit {0})
cleanup_resource R cr r w =
    let (res, w') = R.delete (record r { namespace = cr.meta.namespace }) w in
    (ignore_not_found res, w')
