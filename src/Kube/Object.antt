-- ===== src/Kube/Object.antt =====
-- The kinds of objects that the operator manages, and references to them.
use kubeshark_operator.Common.{String, ◌==◌, Bool, true, false, ◌&&◌}
use kubeshark_operator.Kube.Meta.{ObjectMeta}
use kubeshark_operator.Kube.Workload.{Deployment, DaemonSet}
use kubeshark_operator.Kube.Network.{Service, Ingress}
use kubeshark_operator.Kube.Access.{
  ClusterRole, ClusterRoleBinding, ServiceAccount, ConfigMap, Secret,
}

pub data Kind : Type 0 where
  config_map service_account deployment service : Kind
  cluster_role cluster_role_binding daemon_set ingress secret : Kind

-- The type of a kind's objects.
abbrev pub ObjectOf : Kind → Type 0
ObjectOf config_map = ConfigMap
ObjectOf service_account = ServiceAccount
ObjectOf deployment = Deployment
ObjectOf service = Service
ObjectOf cluster_role = ClusterRole
ObjectOf cluster_role_binding = ClusterRoleBinding
ObjectOf daemon_set = DaemonSet
ObjectOf ingress = Ingress
ObjectOf secret = Secret

abbrev pub meta_of : (k : Kind) → ObjectOf k → ObjectMeta
meta_of config_map o = o.meta
meta_of service_account o = o.meta
meta_of deployment o = o.meta
meta_of service o = o.meta
meta_of cluster_role o = o.meta
meta_of cluster_role_binding o = o.meta
meta_of daemon_set o = o.meta
meta_of ingress o = o.meta
meta_of secret o = o.meta

pub record Ref : Type 0 where
  pub kind : Kind
  pub namespace : String
  pub name : String

abbrev pub ref_of : (k : Kind) → ObjectOf k → Ref
ref_of k o = record { kind = k; namespace = (meta_of k o).namespace; name = (meta_of k o).name }

unfoldable pub same_kind : Kind → Kind → Bool
same_kind config_map config_map = true
same_kind service_account service_account = true
same_kind deployment deployment = true
same_kind service service = true
same_kind cluster_role cluster_role = true
same_kind cluster_role_binding cluster_role_binding = true
same_kind daemon_set daemon_set = true
same_kind ingress ingress = true
same_kind secret secret = true
same_kind _ _ = false

unfoldable pub same_ref : Ref → Ref → Bool
unfolding same_kind
same_ref a b = same_kind a.kind b.kind && (a.namespace == b.namespace && a.name == b.name)
