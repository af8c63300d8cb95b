-- ===== src/Reconcile/Adoption.antt =====
-- The first call of Reconcile for a new resource.
use kubeshark_operator.Common.{true, false, Option, none, some, ◌≡◌, ◌≢◌, ◌∙◌, refl, sym, ap, ok}
use kubeshark_operator.Kube.Meta.{NamespacedName}
use kubeshark_operator.Kube.Object.{Ref}
use kubeshark_operator.Api.{Kubeshark, key_of}
use kubeshark_operator.Names.{finalizer_name}
use kubeshark_operator.Runtime.{Runtime}
use kubeshark_operator.Runtime.Laws.{IsLawful, Keeps}
use kubeshark_operator.Reconcile.{reconcile, with_finalizer}
use kubeshark_operator.Reconcile.Paths.{reconcile-eq-add}

-- The resource is stored, holds the finalizer and asks for what it asked for before, as far as the
-- server keeps it.
pub record IsAdopted (R : Runtime) (w : R.World) (cr : Kubeshark) : Type 0 where
  pub resource : Kubeshark
  pub found : R.kubeshark w (key_of cr) ≡ some resource
  pub kept : Keeps (with_finalizer R cr) resource
  pub held : R.contains_finalizer resource.meta.finalizers finalizer_name ≡ true

module _ (R : Runtime) (L : IsLawful R) (cr : Kubeshark) where
  update-IsAdopted :
      (w : R.World) (x : Option Kubeshark)
      → R.kubeshark (R.update (with_finalizer R cr) w).1 (key_of cr) ≡ x
      → x ≢ none
      → (R.update (with_finalizer R cr) w).0 ≡ ok tt
      → IsAdopted R (R.update (with_finalizer R cr) w).1 cr
  update-IsAdopted w none there stays done = absurd (stays refl)
  update-IsAdopted w (some c) there stays done =
      let kept = L.effects.update (with_finalizer R cr) w c done there in
      record {
        resource = c;
        found = there;
        kept = kept;
        held = rw kept.finalizers (L.utilities.contains-add cr.meta.finalizers finalizer_name);
      }

module _ (R : Runtime) (L : IsLawful R) (req : NamespacedName) (w : R.World) (cr : Kubeshark) where
  -- For every runtime that behaves as documented: if the request names a resource that is not
  -- being deleted and does not hold the finalizer, and Reconcile returns no error, then the
  -- resource is stored with the finalizer added, and with the uid and deletion timestamp that were
  -- read. Its spec is the one that was read, but that absent replicas may have become 1 and an empty
  -- config map table may have become absent. Every stored object is as it was: no object is created
  -- before the finalizer is there.
  pub reconcile_new-IsAdopted :
      (R.get req w).0 ≡ ok cr
      → cr.meta.deletion_timestamp ≡ none
      → R.contains_finalizer cr.meta.finalizers finalizer_name ≡ false
      → (reconcile R req w).0 ≡ ok tt
      → IsAdopted R (reconcile R req w).1 cr
        × ((r : Ref) → R.stored (reconcile R req w).1 r ≡ R.stored w r)
  reconcile_new-IsAdopted got live absent done =
      let path = reconcile-eq-add R L.frames req w cr got live absent in
      let updated = sym (ap (λ r. r.0) path) ∙ done in
      let stays = L.effects.update_live (with_finalizer R cr) w updated live in
      rw path (update-IsAdopted R L cr w _ refl stays updated, L.frames.update_stored _ w)
