-- ===== src/Secret/Correct.antt =====
-- What the Secret should be, and that `reconcileSecret` leaves it so.
use kubeshark_operator.Common.{◌≡◌, refl, subst, some, List, [], ◌∷◌, ok}
use kubeshark_operator.Common.Maps.{StringMap, lookup, lookup-insert}
use kubeshark_operator.Kube.Object.{secret}
use kubeshark_operator.Kube.Access.{Secret}
use kubeshark_operator.Api.{Kubeshark, SecretKubesharkSpec}
use kubeshark_operator.Names.{get_or_default_string, kubeshark_secret_name}
use kubeshark_operator.Runtime.{Runtime}
use kubeshark_operator.Runtime.Laws.{IsLawful}
use kubeshark_operator.Runtime.Owned.{IsChild, owned}
use kubeshark_operator.Runtime.Wants.{Want, Implements, Implements-apply}
use kubeshark_operator.Secret.{write_secret_data, mutate_secret, reconcile_secret}

-- The four keys, each with the resource's value or its default.
pub record HasSecretData (sk : SecretKubesharkSpec) (m : StringMap) : Type 0 where
  pub license : lookup "LICENSE" m ≡ some (get_or_default_string sk.license "")
  pub scripting_env :
      lookup "SCRIPTING_ENV" m ≡ some (get_or_default_string sk.scripting_env_json "{}")
  pub oidc_client_id :
      lookup "OIDC_CLIENT_ID" m ≡ some (get_or_default_string sk.oidc_client_id "not set")
  pub oidc_client_secret :
      lookup "OIDC_CLIENT_SECRET" m ≡ some (get_or_default_string sk.oidc_client_secret "not set")

pub write_secret_data-HasSecretData :
    (sk : SecretKubesharkSpec) (m : StringMap) → HasSecretData sk (write_secret_data sk m)
unfolding write_secret_data
write_secret_data-HasSecretData sk m = record {
  license = simp lookup-insert;
  scripting_env = simp lookup-insert;
  oidc_client_id = simp lookup-insert;
  oidc_client_secret = simp lookup-insert;
}

module _ (cr : Kubeshark) (labels : StringMap) where
  pub record IsKubesharkSecret (o : Secret) : Type 0 where
    pub child : IsChild cr labels o.meta
    pub type : o.type ≡ "Opaque"
    pub content : StringMap
    pub string_data : o.string_data ≡ some content
    pub keys : HasSecretData cr.spec.secret_kubeshark content

  abbrev pub secret_wants : List Want
  secret_wants =
      record {
        ref = record {
          kind = secret;
          namespace = cr.meta.namespace;
          name = kubeshark_secret_name cr;
        };
        desired = IsKubesharkSecret;
      }
      ∷ []

module _ (R : Runtime) (L : IsLawful R) (cr : Kubeshark) (labels : StringMap) where
  mutate_secret-IsKubesharkSecret :
      (b s : Secret) → mutate_secret R cr labels b ≡ ok s → IsKubesharkSecret cr labels s
  unfolding mutate_secret
  mutate_secret-IsKubesharkSecret b s h =
      let (m', made, child, _) = owned R L.utilities cr labels b.meta _ s h in
      subst (IsKubesharkSecret cr labels) made (record {
        child = child;
        type = refl;
        content = _;
        string_data = refl;
        keys = write_secret_data-HasSecretData cr.spec.secret_kubeshark _;
      })

  pub reconcile_secret-Implements :
      Implements R (reconcile_secret R cr labels) (secret_wants cr labels)
  unfolding reconcile_secret
  reconcile_secret-Implements =
      Implements-apply R L.frames L.effects secret _ _ _ mutate_secret-IsKubesharkSecret
