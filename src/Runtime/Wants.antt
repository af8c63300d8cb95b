-- ===== src/Runtime/Wants.antt =====
-- What an action promises to leave in the cluster, and when a sequence of actions keeps every
-- promise of its parts.
use kubeshark_operator.Common.{
  String, true, some, List, [], ◌∷◌, ◌++◌, ◌≡◌, refl, ◌∙◌, ◌⊎◌, inl, inr, Result, ok, All,
}
use kubeshark_operator.Common.Exec.{Exec, pure, wrap_error, ◌>>◌, >>-ok, wrap_error-ok}
use kubeshark_operator.Kube.Object.{Kind, ObjectOf, Ref, ref_of}
use kubeshark_operator.Runtime.{Runtime}
use kubeshark_operator.Runtime.Laws.{HasFrames, HasEffects}
use kubeshark_operator.Runtime.Footprint.{outside, Within, Within-seq}
use kubeshark_operator.Runtime.Footprint.{Within-wrap_error}
use kubeshark_operator.Runtime.Footprint.{Within-apply}

-- An object, and what is wanted of it.
pub record Want : Type 1 where
  pub ref : Ref
  pub desired : ObjectOf ref.kind → Type 0

abbrev pub refs : List Want → List Ref
refs [] = []
refs (x ∷ wants) = x.ref ∷ refs wants

-- The cluster stores the object, as the server realised a submission that is as wanted.
pub record Present (R : Runtime) (w : R.World) (x : Want) : Type 0 where
  pub submitted : ObjectOf x.ref.kind
  pub found : ObjectOf x.ref.kind
  pub desired : x.desired submitted
  pub stored : R.stored w x.ref ≡ some found
  pub realised : R.Realises x.ref.kind submitted found

abbrev pub AllPresent : (R : Runtime) → R.World → List Want → Type 0
AllPresent R w = All (Present R w)

-- The action writes no object but those wanted. If it returns, they are all there.
pub record Implements (R : Runtime) (m : Exec R.World (Unit {0})) (wants : List Want) : Type 0 where
  pub within : Within R (refs wants) m
  pub establishes : (w : R.World) → (m w).0 ≡ ok tt → AllPresent R (m w).1 wants

-- What comes after `x` leaves it alone, or has it among its own promises.
abbrev pub Compatible : Runtime → List Want → Want → Type 0
Compatible R later x =
    (outside (refs later) x.ref ≡ true) ⊎ ((w : R.World) → AllPresent R w later → Present R w x)

module _ (R : Runtime) where
  pub Present-of_stored :
      (w w' : R.World) (x : Want)
      → R.stored w' x.ref ≡ R.stored w x.ref
      → Present R w x
      → Present R w' x
  Present-of_stored w w' x same p = record {
    submitted = p.submitted;
    found = p.found;
    desired = p.desired;
    stored = same ∙ p.stored;
    realised = p.realised;
  }

  pub AllPresent-of_stored :
      (w w' : R.World) (a : List Want)
      → ((r : Ref) → R.stored w' r ≡ R.stored w r)
      → AllPresent R w a
      → AllPresent R w' a
  AllPresent-of_stored w w' [] same p = tt
  AllPresent-of_stored w w' (x ∷ a) same (px, p) =
      (Present-of_stored w w' x (same x.ref) px, AllPresent-of_stored w w' a same p)

  AllPresent-append :
      (w : R.World) (a b : List Want)
      → AllPresent R w a
      → AllPresent R w b
      → AllPresent R w (a ++ b)
  AllPresent-append w [] b pa pb = pb
  AllPresent-append w (x ∷ a) b (px, pa) pb = (px, AllPresent-append w a b pa pb)

  refs-append : (a b : List Want) → refs (a ++ b) ≡ refs a ++ refs b
  refs-append [] b = refl
  refs-append (x ∷ a) b = rw (refs-append a b)

  module _ (n : Exec R.World (Unit {0})) (b : List Want) (impl : Implements R n b) (w : R.World)
      (done : (n w).0 ≡ ok tt) where
    keep : (x : Want) → Compatible R b x → Present R w x → Present R (n w).1 x
    keep x (inl out) p = Present-of_stored w _ x (impl.within.stored w x.ref out) p
    keep x (inr again) p = again (n w).1 (impl.establishes w done)

    keep-All : (a : List Want) → All (Compatible R b) a → AllPresent R w a → AllPresent R (n w).1 a
    keep-All [] c p = tt
    keep-All (x ∷ a) (cx, c) (px, p) = (keep x cx px, keep-All a c p)

  -- A sequence implements what its parts implement, if the second leaves the first's objects be.
  pub Implements-seq :
      (m n : Exec R.World (Unit {0})) (a b : List Want)
      → Implements R m a
      → Implements R n b
      → All (Compatible R b) a
      → Implements R (m >> n) (a ++ b)
  Implements-seq m n a b hm hn c = record {
    within = rw (refs-append a b) (Within-seq R (refs a) (refs b) m n hm.within hn.within);
    establishes = λ w h.
        let (_, first, second, same) = >>-ok m n w h in
        rw same (
          AllPresent-append _ a b (keep-All n b hn (m w).1 second a c (hm.establishes w first))
            (hn.establishes (m w).1 second));
  }

  pub Implements-wrap_error :
      (prefix : String) (m : Exec R.World (Unit {0})) (a : List Want)
      → Implements R m a
      → Implements R (wrap_error prefix m) a
  unfolding wrap_error
  Implements-wrap_error prefix m a h = record {
    within = Within-wrap_error R (refs a) prefix m h.within;
    establishes = λ w done. h.establishes w (wrap_error-ok prefix m w done);
  }

  -- One `CreateOrUpdate` implements what its mutate function makes true.
  pub Implements-apply :
      HasFrames R
      → HasEffects R
      → (k : Kind) (o : ObjectOf k) (f : ObjectOf k → Result (ObjectOf k)) (D : ObjectOf k → Type 0)
      → ((b s : ObjectOf k) → f b ≡ ok s → D s)
      → Implements R
          (R.create_or_update k o f >> pure tt)
          (record { ref = ref_of k o; desired = D } ∷ [])
  unfolding pure
  Implements-apply F E k o f D makes = record {
    within = Within-apply R F k o f;
    establishes = λ w h.
        let (a, first, _, same) = >>-ok (R.create_or_update k o f) (pure tt) w h in
        let (s, t, made, there, real) = E.apply k o f w a first in
        rw same (
          record {
            submitted = s;
            found = t;
            desired = makes _ s made;
            stored = there;
            realised = real;
          },
          tt,
        );
  }
