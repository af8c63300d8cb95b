-- ===== src/Secret.antt =====
-- internal/controller/secret.go: `reconcileSecret`.
pub mod Correct
use kubeshark_operator.Common.{Option, none, some, [], Result, ok}
use kubeshark_operator.Common.Outcome
use kubeshark_operator.Common.Exec.{Exec, pure, ◌>>◌}
use kubeshark_operator.Common.Maps.{StringMap, insert}
use kubeshark_operator.Kube.Meta.{meta_named}
use kubeshark_operator.Kube.Access.{Secret, secret_of}
use kubeshark_operator.Kube.Object.{secret}
use kubeshark_operator.Api.{Kubeshark, SecretKubesharkSpec}
use kubeshark_operator.Names.{get_or_default_string, kubeshark_secret_name}
use kubeshark_operator.Runtime.{Runtime}

abbrev pub map_or_empty : Option StringMap → StringMap
map_or_empty none = []
map_or_empty (some m) = m

-- The four assignments to `secret.StringData`.
unfoldable pub write_secret_data : SecretKubesharkSpec → StringMap → StringMap
unfolding get_or_default_string
write_secret_data sk m =
    insert "OIDC_CLIENT_SECRET" (get_or_default_string sk.oidc_client_secret "not set") (
      insert "OIDC_CLIENT_ID" (get_or_default_string sk.oidc_client_id "not set") (
        insert "SCRIPTING_ENV" (get_or_default_string sk.scripting_env_json "{}")
          (insert "LICENSE" (get_or_default_string sk.license "") m)))

module _ (R : Runtime) (cr : Kubeshark) (labels : StringMap) where
  unfoldable pub mutate_secret : Secret → Result Secret
  mutate_secret sec = Outcome.◌>>=◌ (R.set_controller_reference cr.meta sec.meta) λ meta.
      ok (record sec {
        meta = record meta { labels = labels };
        type = "Opaque";
        string_data =
            some (write_secret_data cr.spec.secret_kubeshark (map_or_empty sec.string_data));
      })

  unfoldable pub reconcile_secret : Exec R.World (Unit {0})
  reconcile_secret = do
    R.create_or_update secret (secret_of (meta_named (kubeshark_secret_name cr) cr.meta.namespace))
        mutate_secret
    pure tt
