-- ===== src/Reconcile/History.antt =====
-- Histories: calls of Reconcile for any resource, with what other clients write between them.
use kubeshark_operator.Common.{
  true, false, none, ◌≡◌, ◌∙◌, ap, sym, inl, inr, Error, ok, err, subst,
}
use kubeshark_operator.Kube.Meta.{NamespacedName}
use kubeshark_operator.Kube.Object.{cluster_role, cluster_role_binding}
use kubeshark_operator.Api.{Kubeshark, key_of}
use kubeshark_operator.Names.{cluster_role_name, cluster_role_binding_name}
use kubeshark_operator.Runtime.{Runtime}
use kubeshark_operator.Runtime.Laws.{IsLawful, same_key, finalizers_of}
use kubeshark_operator.Runtime.Wants.{refs}
use kubeshark_operator.Runtime.Footprint.{outside}
use kubeshark_operator.Finalizer.{role_ref, binding_ref}
use kubeshark_operator.Finalizer.Correct.{IsCleared}
use kubeshark_operator.Reconcile.{reconcile}
use kubeshark_operator.Reconcile.Wanted.{wants}
use kubeshark_operator.Reconcile.Frame.{reconcile-Spares}
use kubeshark_operator.Reconcile.Guard.{IsGuarded, is_held, contains_ours, reconcile-IsGuarded}

-- A version of the resource that asks for the same cluster-scoped objects.
pub record IsVersion (cr c : Kubeshark) : Type 0 where
  pub key : key_of c ≡ key_of cr
  pub role : cluster_role_name c ≡ cluster_role_name cr
  pub binding : cluster_role_binding_name c ≡ cluster_role_binding_name cr

-- Another resource, which asks for neither of them.
pub record IsApart (cr c : Kubeshark) : Type 0 where
  pub key : same_key (key_of c) (key_of cr) ≡ false
  pub role : outside (refs (wants c)) (role_ref cr) ≡ true
  pub binding : outside (refs (wants c)) (binding_ref cr) ≡ true

-- What other clients may do: anything, but take the finalizer from the resource, or create its
-- cluster-scoped objects.
pub record IsAllowed (R : Runtime) (cr : Kubeshark) (w v : R.World) : Type 0 where
  pub held : is_held R w (key_of cr) ≡ true → is_held R v (key_of cr) ≡ true
  pub cleared : IsCleared R w cr → IsCleared R v cr

-- One step of a history, as the resource `cr` sees it.
pub data Event (R : Runtime) (cr : Kubeshark) (w : R.World) : R.World → Type 0 where
  miss :
      (req : NamespacedName) (e : Error)
      → (R.get req w).0 ≡ err e
      → Event R cr w (reconcile R req w).1
  own :
      (req : NamespacedName) (c : Kubeshark)
      → (R.get req w).0 ≡ ok c
      → IsVersion cr c
      → Event R cr w (reconcile R req w).1
  other :
      (req : NamespacedName) (c : Kubeshark)
      → (R.get req w).0 ≡ ok c
      → IsApart cr c
      → Event R cr w (reconcile R req w).1
  edit : (v : R.World) → IsAllowed R cr w v → Event R cr w v

pub data History (R : Runtime) (cr : Kubeshark) (w : R.World) : R.World → Type 0 where
  start : History R cr w w
  later : {u v : R.World} → History R cr w u → Event R cr u v → History R cr w v

-- Two resources that ask for the same cluster-scoped objects.
module _ (R : Runtime) (x y : Kubeshark) (w : R.World)
    (role : cluster_role_name x ≡ cluster_role_name y)
    (binding : cluster_role_binding_name x ≡ cluster_role_binding_name y) where
  IsCleared-same : IsCleared R w x → IsCleared R w y
  IsCleared-same h = record {
    role =
        subst (λ n. R.stored w (record { kind = cluster_role; namespace = ""; name = n }) ≡ none)
          role h.role;
    binding =
        subst
          (λ n.
            R.stored w (record { kind = cluster_role_binding; namespace = ""; name = n }) ≡ none)
          binding h.binding;
  }

  IsGuarded-same : key_of x ≡ key_of y → IsGuarded R x w → IsGuarded R y w
  IsGuarded-same key (inl held) = inl (subst (λ k. is_held R w k ≡ true) key held)
  IsGuarded-same key (inr h) = inr (IsCleared-same h)

module _ (R : Runtime) (L : IsLawful R) (cr : Kubeshark) where
  miss-eq :
      (w : R.World) (req : NamespacedName) (e : Error)
      → (R.get req w).0 ≡ err e
      → (reconcile R req w).1 ≡ w
  unfolding reconcile
  miss-eq w req e failed = rw (failed, L.frames.get req w)

  other-IsGuarded :
      (w : R.World) (req : NamespacedName) (c : Kubeshark)
      → (R.get req w).0 ≡ ok c
      → IsApart cr c
      → IsGuarded R cr w
      → IsGuarded R cr (reconcile R req w).1
  other-IsGuarded w req c got apart (inl held) =
      let spares = reconcile-Spares R L req w c got in
      inl (
        ap (λ x. contains_ours R (finalizers_of x)) (spares.kubeshark (key_of cr) apart.key) ∙ held)
  other-IsGuarded w req c got apart (inr h) =
      let spares = reconcile-Spares R L req w c got in
      inr (record {
        role = spares.stored (role_ref cr) apart.role ∙ h.role;
        binding = spares.stored (binding_ref cr) apart.binding ∙ h.binding;
      })

  Event-IsGuarded : {w v : R.World} → Event R cr w v → IsGuarded R cr w → IsGuarded R cr v
  Event-IsGuarded {w} (miss req e failed) g =
      subst (IsGuarded R cr) (sym (miss-eq w req e failed)) g
  Event-IsGuarded {w} (own req c got version) g =
      IsGuarded-same R c cr _ version.role version.binding version.key (
        reconcile-IsGuarded R L req w c got
          (IsGuarded-same R cr c w (sym version.role) (sym version.binding) (sym version.key) g))
  Event-IsGuarded {w} (other req c got apart) g = other-IsGuarded w req c got apart g
  Event-IsGuarded (edit v allowed) (inl held) = inl (allowed.held held)
  Event-IsGuarded (edit v allowed) (inr h) = inr (allowed.cleared h)

  -- The finalizer guards the cluster-scoped objects along every history.
  pub History-IsGuarded : {w v : R.World} → History R cr w v → IsGuarded R cr w → IsGuarded R cr v
  History-IsGuarded start g = g
  History-IsGuarded (later r s) g = Event-IsGuarded s (History-IsGuarded r g)

  gone_of_IsGuarded :
      (v : R.World) → R.kubeshark v (key_of cr) ≡ none → IsGuarded R cr v → IsCleared R v cr
  gone_of_IsGuarded v gone (inl held) = cc (rw gone at held)
  gone_of_IsGuarded v gone (inr h) = h

  -- For every runtime that behaves as documented, and every history in which calls of Reconcile for
  -- any resource alternate with writes by others: if the resource held the finalizer at the start or
  -- had no cluster role and no binding then, the versions of it that are read ask for the same two
  -- objects, no other resource that is reconciled asks for them, and no one else takes the finalizer
  -- away or creates the two objects, then, whenever the resource is no longer stored, its cluster
  -- role and binding are not stored either.
  pub History-leaves_nothing :
      (w v : R.World)
      → History R cr w v
      → IsGuarded R cr w
      → R.kubeshark v (key_of cr) ≡ none
      → IsCleared R v cr
  History-leaves_nothing w v r g gone = gone_of_IsGuarded v gone (History-IsGuarded r g)
