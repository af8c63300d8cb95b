-- ===== src/Kube/Network.antt =====
-- `corev1.Service` and `networkingv1.Ingress`.
use kubeshark_operator.Common.{ℕ, String, Option, none, List, []}
use kubeshark_operator.Common.Maps.{StringMap}
use kubeshark_operator.Kube.Meta.{ObjectMeta, Untouched}

pub record ServicePort : Type 0 where
  pub name : String
  pub port : ℕ
  pub target_port : ℕ

pub record ServiceSpec : Type 0 where
  pub type : String
  pub selector : StringMap
  pub ports : List ServicePort
  pub other : Untouched

pub record Service : Type 0 where
  pub meta : ObjectMeta
  pub spec : ServiceSpec
  pub other : Untouched

-- `Service{ObjectMeta: meta}`
abbrev pub service_of : ObjectMeta → Service
service_of meta = record {
  meta = meta;
  spec = record { type = ""; selector = []; ports = []; other = [] };
  other = [];
}

pub record ServiceBackend : Type 0 where
  pub name : String
  pub port_number : ℕ

pub record HttpIngressPath : Type 0 where
  pub path : String
  pub path_type : Option String
  pub backend : Option ServiceBackend

-- A rule whose value is a list of HTTP paths.
pub record IngressRule : Type 0 where
  pub host : String
  pub http_paths : List HttpIngressPath

pub record IngressSpec : Type 0 where
  pub ingress_class_name : Option String
  pub rules : List IngressRule
  pub other : Untouched

pub record Ingress : Type 0 where
  pub meta : ObjectMeta
  pub spec : IngressSpec
  pub other : Untouched

-- `Ingress{ObjectMeta: meta}`
abbrev pub ingress_of : ObjectMeta → Ingress
ingress_of meta = record {
  meta = meta;
  spec = record { ingress_class_name = none; rules = []; other = [] };
  other = [];
}
