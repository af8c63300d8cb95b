-- ===== src/Kube/Workload.antt =====
-- `appsv1.Deployment` and `appsv1.DaemonSet`.
use kubeshark_operator.Common.{ℕ, Option, none, []}
use kubeshark_operator.Common.Maps.{StringMap}
use kubeshark_operator.Kube.Meta.{ObjectMeta, Untouched, meta_named}
use kubeshark_operator.Kube.Pod.{PodTemplateSpec, no_template}

pub record DeploymentSpec : Type 0 where
  pub replicas : Option ℕ
  pub selector : Option StringMap
  pub template : PodTemplateSpec
  pub other : Untouched

pub record Deployment : Type 0 where
  pub meta : ObjectMeta
  pub spec : DeploymentSpec
  pub other : Untouched

pub record DaemonSetSpec : Type 0 where
  pub selector : Option StringMap
  pub template : PodTemplateSpec
  pub other : Untouched

pub record DaemonSet : Type 0 where
  pub meta : ObjectMeta
  pub spec : DaemonSetSpec
  pub other : Untouched

-- `Deployment{ObjectMeta: meta}`
abbrev pub deployment_of : ObjectMeta → Deployment
deployment_of meta = record {
  meta = meta;
  spec = record {
    replicas = none;
    selector = none;
    template = no_template (meta_named "" "");
    other = [];
  };
  other = [];
}

-- `DaemonSet{ObjectMeta: meta}`
abbrev pub daemon_set_of : ObjectMeta → DaemonSet
daemon_set_of meta = record {
  meta = meta;
  spec = record { selector = none; template = no_template (meta_named "" ""); other = [] };
  other = [];
}
