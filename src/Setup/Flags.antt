-- ===== src/Setup/Flags.antt =====
-- cmd/main.go: the flags and their defaults. `flag.Parse` is the library's.
use kubeshark_operator.Common.{String, Bool, true, false}

pub record Flags : Type 0 where
  pub metrics_addr : String
  pub probe_addr : String
  pub enable_leader_election : Bool
  pub secure_metrics : Bool
  pub webhook_cert_path : String
  pub webhook_cert_name : String
  pub webhook_cert_key : String
  pub metrics_cert_path : String
  pub metrics_cert_name : String
  pub metrics_cert_key : String
  pub enable_http2 : Bool

-- What the flags are when the command line sets none.
unfoldable pub default_flags : Flags
default_flags = record {
  metrics_addr = "0";
  probe_addr = ":8081";
  enable_leader_election = false;
  secure_metrics = true;
  webhook_cert_path = "";
  webhook_cert_name = "tls.crt";
  webhook_cert_key = "tls.key";
  metrics_cert_path = "";
  metrics_cert_name = "tls.crt";
  metrics_cert_key = "tls.key";
  enable_http2 = false;
}
