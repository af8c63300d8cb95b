-- ===== src/Setup/Options.antt =====
-- cmd/main.go: the options of the webhook server, of the metrics server and of the manager.
use kubeshark_operator.Common.{String, ◌==◌, Bool, Option, none, some, List, [], ◌∷◌, if◌then◌else◌}
use kubeshark_operator.Kube.Meta.{Untouched}
use kubeshark_operator.Setup.Flags.{Flags}

-- `tls.Config`
pub record TlsConfig : Type 0 where
  pub next_protos : List String
  pub other : Untouched

abbrev pub TlsOpts : Type 0
TlsOpts = List (TlsConfig → TlsConfig)

unfoldable pub disable_http2 : TlsConfig → TlsConfig
disable_http2 c = record c { next_protos = "http/1.1" ∷ [] }

unfoldable pub tls_opts : Flags → TlsOpts
tls_opts flags = if flags.enable_http2 then [] else disable_http2 ∷ []

-- The directory and the names of a certificate and its key. Empty texts stand for what the options
-- do not set.
pub record CertFiles : Type 0 where
  pub cert_dir : String
  pub cert_name : String
  pub key_name : String

abbrev pub no_cert_files : CertFiles
no_cert_files = record { cert_dir = ""; cert_name = ""; key_name = "" }

-- `if len(path) > 0`: the three options are set together.
unfoldable pub cert_files : String → String → String → CertFiles
cert_files path name key =
    if path == ""
    then no_cert_files
    else record { cert_dir = path; cert_name = name; key_name = key }

-- `webhook.Options`
pub record WebhookOptions : Type 0 where
  pub tls_opts : TlsOpts
  pub files : CertFiles

unfoldable pub webhook_server_options : Flags → WebhookOptions
unfolding tls_opts cert_files
webhook_server_options flags = record {
  tls_opts = tls_opts flags;
  files = cert_files flags.webhook_cert_path flags.webhook_cert_name flags.webhook_cert_key;
}

-- `filters.WithAuthenticationAndAuthorization`
pub data FilterProvider : Type 0 where
  with_authentication_and_authorization : FilterProvider

-- `metricsserver.Options`
pub record MetricsOptions : Type 0 where
  pub bind_address : String
  pub secure_serving : Bool
  pub tls_opts : TlsOpts
  pub filter_provider : Option FilterProvider
  pub files : CertFiles

unfoldable pub metrics_server_options : Flags → MetricsOptions
unfolding tls_opts cert_files
metrics_server_options flags = record {
  bind_address = flags.metrics_addr;
  secure_serving = flags.secure_metrics;
  tls_opts = tls_opts flags;
  filter_provider =
      if flags.secure_metrics then some with_authentication_and_authorization else none;
  files = cert_files flags.metrics_cert_path flags.metrics_cert_name flags.metrics_cert_key;
}

-- `ctrl.Options`. The webhook server is the one that `webhook.NewServer` makes of its options.
pub record ManagerOptions (Scheme : Type 0) : Type 0 where
  pub scheme : Scheme
  pub metrics : MetricsOptions
  pub webhook_server : WebhookOptions
  pub health_probe_bind_address : String
  pub leader_election : Bool
  pub leader_election_id : String

unfoldable pub manager_options : {Scheme : Type 0} → Scheme → Flags → ManagerOptions Scheme
unfolding metrics_server_options webhook_server_options
manager_options scheme flags = record {
  scheme = scheme;
  metrics = metrics_server_options flags;
  webhook_server = webhook_server_options flags;
  health_probe_bind_address = flags.probe_addr;
  leader_election = flags.enable_leader_election;
  leader_election_id = "47c73190.opstreelabs.in";
}
