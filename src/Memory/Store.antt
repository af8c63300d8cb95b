-- ===== src/Memory/Store.antt =====
-- The objects of a cluster, by kind, namespace and name.
use kubeshark_operator.Common.{String, ◌==◌, false, ◌&&◌, Option, ◌≡◌, refl, if◌then◌else◌, eq_refl}
use kubeshark_operator.Kube.Object.{
  Kind, config_map, service_account, deployment, service, cluster_role, cluster_role_binding,
  daemon_set, ingress, secret, ObjectOf, Ref, same_kind, same_ref,
}

abbrev pub Objects : Type 0
Objects = (k : Kind) → String → String → Option (ObjectOf k)

abbrev pub at : Objects → (r : Ref) → Option (ObjectOf r.kind)
at w r = w r.kind r.namespace r.name

abbrev here : {A : Type 0} → String → String → String → String → A → A → A
here namespace name namespace' name' new old =
    if namespace == namespace' && name == name' then new else old

unfoldable pub put : (k : Kind) → String → String → Option (ObjectOf k) → Objects → Objects
put config_map s n o w config_map t m = here s n t m o (w config_map t m)
put service_account s n o w service_account t m = here s n t m o (w service_account t m)
put deployment s n o w deployment t m = here s n t m o (w deployment t m)
put service s n o w service t m = here s n t m o (w service t m)
put cluster_role s n o w cluster_role t m = here s n t m o (w cluster_role t m)
put cluster_role_binding s n o w cluster_role_binding t m =
    here s n t m o (w cluster_role_binding t m)
put daemon_set s n o w daemon_set t m = here s n t m o (w daemon_set t m)
put ingress s n o w ingress t m = here s n t m o (w ingress t m)
put secret s n o w secret t m = here s n t m o (w secret t m)
put _ s n o w j t m = w j t m

here_self : {A : Type 0} (s n : String) (new old : A) → here s n s n new old ≡ new
here_self s n new old = rw (eq_refl s, eq_refl n)

here_other :
    {A : Type 0} (s n t m : String) (new old : A)
    → (s == t && n == m) ≡ false
    → here s n t m new old ≡ old
here_other s n t m new old h = rw h

pub put_self :
    (k : Kind) (s n : String) (o : Option (ObjectOf k)) (w : Objects) → put k s n o w k s n ≡ o
unfolding put
put_self config_map s n o w = here_self s n o _
put_self service_account s n o w = here_self s n o _
put_self deployment s n o w = here_self s n o _
put_self service s n o w = here_self s n o _
put_self cluster_role s n o w = here_self s n o _
put_self cluster_role_binding s n o w = here_self s n o _
put_self daemon_set s n o w = here_self s n o _
put_self ingress s n o w = here_self s n o _
put_self secret s n o w = here_self s n o _

put_other_at :
    (k : Kind) (s n : String) (o : Option (ObjectOf k)) (w : Objects) (j : Kind) (t m : String)
    → (same_kind k j && (s == t && n == m)) ≡ false
    → put k s n o w j t m ≡ w j t m
unfolding put same_kind
put_other_at config_map s n o w config_map t m h = here_other s n t m o _ h
put_other_at service_account s n o w service_account t m h = here_other s n t m o _ h
put_other_at deployment s n o w deployment t m h = here_other s n t m o _ h
put_other_at service s n o w service t m h = here_other s n t m o _ h
put_other_at cluster_role s n o w cluster_role t m h = here_other s n t m o _ h
put_other_at cluster_role_binding s n o w cluster_role_binding t m h = here_other s n t m o _ h
put_other_at daemon_set s n o w daemon_set t m h = here_other s n t m o _ h
put_other_at ingress s n o w ingress t m h = here_other s n t m o _ h
put_other_at secret s n o w secret t m h = here_other s n t m o _ h
put_other_at _ s n o w j t m h = refl

-- A write concerns the object that it names alone.
pub at-put_other :
    (d : Ref) (o : Option (ObjectOf d.kind)) (w : Objects) (r : Ref)
    → same_ref d r ≡ false
    → at (put d.kind d.namespace d.name o w) r ≡ at w r
unfolding same_ref
at-put_other d o w r h = put_other_at d.kind d.namespace d.name o w r.kind r.namespace r.name h
