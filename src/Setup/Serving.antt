-- ===== src/Setup/Serving.antt =====
-- cmd/main.go: how the two servers of the manager are configured.
use kubeshark_operator.Common.{
  String, ◌==◌, Bool, true, false, Option, none, some, [], ◌∷◌, ◌≡◌, ◌≢◌, refl, arith, eq_iff,
  Bool-cases, inl, inr, if◌then◌else◌,
}
use kubeshark_operator.Setup.Flags.{Flags}
use kubeshark_operator.Setup.Options.{
  TlsConfig, TlsOpts, disable_http2, tls_opts, CertFiles, no_cert_files, cert_files,
  webhook_server_options, metrics_server_options, ManagerOptions, manager_options,
}

-- A server applies the functions to its TLS configuration, one after the other.
abbrev pub configured : TlsOpts → TlsConfig → TlsConfig
configured [] c = c
configured (f ∷ opts) c = configured opts (f c)

abbrev is_some : {A : Type 0} → Option A → Bool
is_some none = false
is_some (some a) = true

-- A certificate directory is named, or nothing of a certificate is.
pub data AllOrNone (files : CertFiles) : Type 0 where
  all : files.cert_dir ≢ "" → AllOrNone files
  nothing : files ≡ no_cert_files → AllOrNone files

-- Both servers speak HTTP/1.1 only unless HTTP/2 is enabled, and have no other change of their TLS
-- configuration. Metrics are served by HTTPS just if requests are authenticated and authorized.
pub record IsProtected {Scheme : Type 0} (flags : Flags) (o : ManagerOptions Scheme) (c : TlsConfig)
    : Type 0 where
  pub metrics :
      configured o.metrics.tls_opts c
      ≡ (if flags.enable_http2 then c else record c { next_protos = "http/1.1" ∷ [] })
  pub webhook : configured o.webhook_server.tls_opts c ≡ configured o.metrics.tls_opts c
  pub filtered : o.metrics.secure_serving ≡ is_some o.metrics.filter_provider
  pub metrics_files : AllOrNone o.metrics.files
  pub webhook_files : AllOrNone o.webhook_server.files

configured-tls_opts :
    (flags : Flags) (c : TlsConfig)
    → configured (tls_opts flags) c
      ≡ (if flags.enable_http2 then c else record c { next_protos = "http/1.1" ∷ [] })
unfolding tls_opts disable_http2
configured-tls_opts flags c = elim (Bool-cases flags.enable_http2) [
  | inl on ↦ rw on refl
  | inr off ↦ rw off refl
]

cert_files-AllOrNone : (path name key : String) → AllOrNone (cert_files path name key)
unfolding cert_files
cert_files-AllOrNone path name key = elim (Bool-cases (path == "")) [
  | inl unset ↦ rw unset (nothing refl)
  | inr set ↦ rw set (all (λ e. ground (arith, e, set, eq_iff path "")))
]

filter_of_secure :
    (flags : Flags)
    → (metrics_server_options flags).secure_serving
      ≡ is_some (metrics_server_options flags).filter_provider
unfolding metrics_server_options
filter_of_secure flags = elim (Bool-cases flags.secure_metrics) [
  | inl on ↦ rw on refl
  | inr off ↦ rw off refl
]

-- For every scheme, all flags and every TLS configuration that a server starts from: both servers
-- turn it into the same one, which is as it was if HTTP/2 is enabled, and else differs in that the
-- only protocol is HTTP/1.1; the metrics are served securely just if a filter authenticates and
-- authorizes requests; and each server has a certificate directory or no certificate options.
pub manager_options-IsProtected :
    {Scheme : Type 0} (scheme : Scheme) (flags : Flags) (c : TlsConfig)
    → IsProtected flags (manager_options scheme flags) c
unfolding manager_options metrics_server_options webhook_server_options
manager_options-IsProtected scheme flags c = record {
  metrics = configured-tls_opts flags c;
  webhook = refl;
  filtered = filter_of_secure flags;
  metrics_files =
      cert_files-AllOrNone flags.metrics_cert_path flags.metrics_cert_name flags.metrics_cert_key;
  webhook_files =
      cert_files-AllOrNone flags.webhook_cert_path flags.webhook_cert_name flags.webhook_cert_key;
}
