-- ===== src/Runtime/Footprint.antt =====
-- Which stored objects an action may write, with a rule for each way to build an action.
use kubeshark_operator.Common.{
  String, Bool, true, not, List, [], ◌∷◌, ◌++◌, ◌≡◌, refl, ◌∙◌, Result, ok, err, every,
  every-append, and-eq-true, not-eq-true,
}
use kubeshark_operator.Common.Exec.{Exec, pure, wrap_error, continue, ◌>>=◌, ◌>>◌}
use kubeshark_operator.Kube.Meta.{NamespacedName}
use kubeshark_operator.Kube.Object.{Kind, ObjectOf, Ref, ref_of, same_ref}
use kubeshark_operator.Runtime.{Runtime}
use kubeshark_operator.Runtime.Laws.{HasFrames}

-- Is the object none of those listed?
abbrev pub outside : List Ref → Ref → Bool
outside refs r = every (λ a. not (same_ref a r)) refs

-- The action leaves alone every object that is not listed, and all resources of the operator,
-- whether it returns or fails.
pub record Within {A : Type 0} (R : Runtime) (refs : List Ref) (m : Exec R.World A) : Type 0 where
  pub stored : (w : R.World) (r : Ref) → outside refs r ≡ true → R.stored (m w).1 r ≡ R.stored w r
  pub kubeshark : (w : R.World) (key : NamespacedName) → R.kubeshark (m w).1 key ≡ R.kubeshark w key

module _ {A : Type 0} (R : Runtime) (a b : List Ref) (m : Exec R.World A) where
  Within-append_left : Within R a m → Within R (a ++ b) m
  Within-append_left h = record {
    stored = λ w r o. h.stored w r (every-append _ a b o).0;
    kubeshark = h.kubeshark;
  }

  Within-append_right : Within R b m → Within R (a ++ b) m
  Within-append_right h = record {
    stored = λ w r o. h.stored w r (every-append _ a b o).1;
    kubeshark = h.kubeshark;
  }

module _ {A : Type 0} (R : Runtime) (refs : List Ref) where
  pub Within-pure : (a : A) → Within R refs (pure a)
  unfolding pure
  Within-pure a = record { stored = λ w r o. refl; kubeshark = λ w key. refl }

  pub Within-wrap_error :
      (prefix : String) (m : Exec R.World A) → Within R refs m → Within R refs (wrap_error prefix m)
  unfolding wrap_error
  Within-wrap_error prefix m h = record { stored = h.stored; kubeshark = h.kubeshark }

module _ {A B : Type 0} (R : Runtime) (refs : List Ref) (f : A → Exec R.World B) where
  Within-continue :
      (res : Result A) → ((a : A) → Within R refs (f a)) → Within R refs (continue res f)
  Within-continue (ok a) h = record { stored = (h a).stored; kubeshark = (h a).kubeshark }
  Within-continue (err e) h = record { stored = λ w r o. refl; kubeshark = λ w key. refl }

  Within-bind :
      (m : Exec R.World A)
      → Within R refs m
      → ((a : A) → Within R refs (f a))
      → Within R refs (m >>= f)
  unfolding ◌>>=◌
  Within-bind m hm hf = record {
    stored =
        λ w r o. let (res, w') = m w in (Within-continue res hf).stored w' r o ∙ hm.stored w r o;
    kubeshark = λ w key.
        let (res, w') = m w in (Within-continue res hf).kubeshark w' key ∙ hm.kubeshark w key;
  }

module _ {A : Type 0} (R : Runtime) (a b : List Ref) (m : Exec R.World (Unit {0}))
    (n : Exec R.World A) where
  -- A sequence writes what its parts write.
  pub Within-seq : Within R a m → Within R b n → Within R (a ++ b) (m >> n)
  Within-seq hm hn =
      Within-bind R (a ++ b) (λ _. n) m (Within-append_left R a b m hm)
        (λ _. Within-append_right R a b n hn)

module _ (R : Runtime) (F : HasFrames R) where
  -- `CreateOrUpdate` writes the object that it is given.
  Within-create_or_update :
      (k : Kind) (o : ObjectOf k) (f : ObjectOf k → Result (ObjectOf k))
      → Within R (ref_of k o ∷ []) (R.create_or_update k o f)
  Within-create_or_update k o f = record {
    stored = λ w r out. F.apply_others k o f w r (not-eq-true _ (and-eq-true _ _ out).0);
    kubeshark = F.apply_kubeshark k o f;
  }

  pub Within-apply :
      (k : Kind) (o : ObjectOf k) (f : ObjectOf k → Result (ObjectOf k))
      → Within R (ref_of k o ∷ []) (R.create_or_update k o f >> pure tt)
  Within-apply k o f =
      Within-bind R (ref_of k o ∷ []) (λ _. pure tt) (R.create_or_update k o f)
        (Within-create_or_update k o f) (λ _. Within-pure R (ref_of k o ∷ []) tt)

  pub Within-delete : (d : Ref) → Within R (d ∷ []) (R.delete d)
  Within-delete d = record {
    stored = λ w r out. F.delete_others d w r (not-eq-true _ (and-eq-true _ _ out).0);
    kubeshark = F.delete_kubeshark d;
  }
