-- ===== src/Runtime/Owned.antt =====
-- The first lines of most mutate functions: the resource becomes the object's controller, and the
-- object gets the labels.
use kubeshark_operator.Common.{true, ◌≡◌, refl, ok, >>=-ok}
use kubeshark_operator.Common.Outcome.{◌>>=◌}
use kubeshark_operator.Common.Maps.{StringMap}
use kubeshark_operator.Kube.Meta.{ObjectMeta, is_controlled_by}
use kubeshark_operator.Api.{Kubeshark}
use kubeshark_operator.Runtime.{Runtime}
use kubeshark_operator.Runtime.Laws.{HasUtilities}

-- The resource controls the object, and the object carries the labels.
pub record IsChild (cr : Kubeshark) (labels : StringMap) (m : ObjectMeta) : Type 0 where
  pub controlled : is_controlled_by m cr.meta ≡ true
  pub labelled : m.labels ≡ labels

abbrev pub labelled : StringMap → ObjectMeta → ObjectMeta
labelled labels m = record m { labels = labels }

module _ (R : Runtime) (U : HasUtilities R) (cr : Kubeshark) (labels : StringMap) {A : Type 0} where
  pub owned :
      (m : ObjectMeta) (f : ObjectMeta → A) (s : A)
      → (R.set_controller_reference cr.meta m >>= (λ m'. ok (f m'))) ≡ ok s
      → (m' : ObjectMeta) × (f m' ≡ s)
        × IsChild cr labels (labelled labels m')
        × (m' ≡ record m { owner_references = m'.owner_references })
  owned m f s h =
      let (m', set, made) = >>=-ok (R.set_controller_reference cr.meta m) (λ m'. ok (f m')) h in
      let (controls, rest) = U.set_controller cr.meta m m' set in
      (m', cc made, record { controlled = controls; labelled = refl }, rest)
