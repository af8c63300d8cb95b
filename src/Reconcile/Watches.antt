-- ===== src/Reconcile/Watches.antt =====
-- internal/controller/kubeshark_controller.go: `SetupWithManager`, and which of the objects that
-- Reconcile applies it has watched.
use kubeshark_operator.Common.{String, Bool, true, false, List, [], ◌∷◌, ◌≡◌, refl, exists, All}
use kubeshark_operator.Common.Exec.{Exec}
use kubeshark_operator.Kube.Meta.{is_controlled_by}
use kubeshark_operator.Kube.Object.{
  Kind, ObjectOf, meta_of, same_kind, deployment, daemon_set, service, config_map, secret,
  service_account, ingress,
}
use kubeshark_operator.Api.{Kubeshark}
use kubeshark_operator.Runtime.Wants.{Want}
use kubeshark_operator.Reconcile.Wanted.{wants}

-- What the chain of calls on the builder has said: the kind of the resource, the kinds whose
-- objects lead to their controller, and the controller's name.
pub record ControllerSetup : Type 0 where
  pub for : String
  pub owns : List Kind
  pub named : String

unfoldable pub controller_setup : ControllerSetup
controller_setup = record {
  for = "Kubeshark";
  owns = deployment ∷ daemon_set ∷ service ∷ config_map ∷ secret ∷ service_account ∷ ingress ∷ [];
  named = "kubeshark";
}

-- `Complete(r)` is the library's.
unfoldable pub setup_with_manager :
    {W : Type 0} → (ControllerSetup → Exec W (Unit {0})) → Exec W (Unit {0})
unfolding controller_setup
setup_with_manager complete = complete controller_setup

unfoldable pub is_watched : Kind → Bool
unfolding controller_setup same_kind
is_watched k = exists (same_kind k) controller_setup.owns

-- A change of the object brings a call for the resource, since its kind is watched and it names the
-- resource as its controller; or the object is cluster-scoped, and its kind is not watched.
pub data Noticed (cr : Kubeshark) (x : Want) : Type 0 where
  by_owner :
      is_watched x.ref.kind ≡ true
      → ((o : ObjectOf x.ref.kind)
          → x.desired o
          → is_controlled_by (meta_of x.ref.kind o) cr.meta ≡ true)
      → Noticed cr x
  not_watched : is_watched x.ref.kind ≡ false → x.ref.namespace ≡ "" → Noticed cr x

-- For every resource, each of the twelve objects that the steps apply is of a watched kind and, as
-- wanted, names the resource as its controller, or it has no namespace and is not watched.
pub wants-AllNoticed : (cr : Kubeshark) → All (Noticed cr) (wants cr)
unfolding is_watched same_kind
wants-AllNoticed cr = (
  by_owner refl (λ o h. h.child.controlled),
  (
    by_owner refl (λ o h. h.controlled),
    (
      by_owner refl (λ o h. h.child.controlled),
      (
        by_owner refl (λ o h. h.child.controlled),
        (
          by_owner refl (λ o h. h.controlled),
          (
            not_watched refl refl,
            (
              not_watched refl refl,
              (
                by_owner refl (λ o h. h.child.controlled),
                (
                  by_owner refl (λ o h. h.child.controlled),
                  (
                    by_owner refl (λ o h. h.child.controlled),
                    (
                      by_owner refl (λ o h. h.child.controlled),
                      (by_owner refl (λ o h. h.child.controlled), tt),
                    ),
                  ),
                ),
              ),
            ),
          ),
        ),
      ),
    ),
  ),
)
