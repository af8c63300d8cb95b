-- ===== src/Runtime/Available.antt =====
-- When an action succeeds: the server answers, and no object that the action applies has another
-- controller.
use kubeshark_operator.Common.{
  String, Bool, true, false, Option, some, none, List, [], ◌∷◌, ◌++◌, ◌≡◌, ◌∙◌, ◌⊎◌, refl, sym,
  Result, ok, err, Error, All, every, exists, and-eq-true,
}
use kubeshark_operator.Common.Outcome
use kubeshark_operator.Common.Exec.{Exec, pure, wrap_error, ◌>>=◌, ◌>>◌}
use kubeshark_operator.Kube.Meta.{ObjectMeta, NamespacedName, is_controlled_by}
use kubeshark_operator.Kube.Object.{Kind, ObjectOf, Ref, ref_of, meta_of}
use kubeshark_operator.Api.{Kubeshark, key_of}
use kubeshark_operator.Runtime.{Runtime, OperationResult}
use kubeshark_operator.Runtime.Laws.{HasFrames, found_or}
use kubeshark_operator.Runtime.Footprint.{
  Within, outside, Within-seq, Within-apply, Within-wrap_error,
}

abbrev pub has_controller : ObjectMeta → Bool
has_controller m = exists (λ r. r.controller) m.owner_references

-- The metadata names no controller but the owner.
abbrev pub IsAdoptable : ObjectMeta → ObjectMeta → Type 0
IsAdoptable owner m = (is_controlled_by m owner ≡ true) ⊎ (has_controller m ≡ false)

-- When the server answers. What it accepts is up to it: `Accepts k old s` says that it admits `s` in
-- place of what is stored, so that `s` is valid, changes no immutable field, and is a write that the
-- operator is authorized for. `SetControllerReference` refuses only where there is another
-- controller.
pub record IsAvailable (R : Runtime) : Type 1 where
  pub Accepts : (k : Kind) → Option (ObjectOf k) → ObjectOf k → Type 0
  pub apply :
      (k : Kind) (o : ObjectOf k) (f : ObjectOf k → Result (ObjectOf k)) (w : R.World)
      (s : ObjectOf k)
      → f (found_or (R.stored w (ref_of k o)) o) ≡ ok s
      → Accepts k (R.stored w (ref_of k o)) s
      → (res : OperationResult) × ((R.create_or_update k o f w).0 ≡ ok res)
  pub patch :
      (orig cr c : Kubeshark) (w : R.World)
      → R.kubeshark w (key_of cr) ≡ some c
      → (R.patch_status orig cr w).0 ≡ ok tt
  pub read :
      (key : NamespacedName) (w : R.World) (c : Kubeshark)
      → R.kubeshark w key ≡ some c
      → key_of c ≡ key
      → (R.get key w).0 ≡ ok c
  pub write :
      (cr c : Kubeshark) (w : R.World)
      → R.kubeshark w (key_of cr) ≡ some c
      → (R.update cr w).0 ≡ ok tt
  pub remove :
      (r : Ref) (w : R.World)
      → ((R.delete r w).0 ≡ ok tt)
        ⊎ ((e : Error) × ((R.delete r w).0 ≡ err e) × (e.is_not_found ≡ true))
  pub adopt :
      (owner m : ObjectMeta)
      → IsAdoptable owner m
      → (m' : ObjectMeta) × (R.set_controller_reference owner m ≡ ok m')

-- One `CreateOrUpdate`: the object that the caller made, and the mutate function.
pub record Application : Type 0 where
  pub kind : Kind
  pub object : ObjectOf kind
  pub mutate : ObjectOf kind → Result (ObjectOf kind)

abbrev pub applied_refs : List Application → List Ref
applied_refs [] = []
applied_refs (a ∷ apps) = ref_of a.kind a.object ∷ applied_refs apps

-- What is stored under the name has no other controller, and the server accepts in its place what
-- the mutate function makes of it.
pub record MayApply (R : Runtime) (A : IsAvailable R) (w : R.World) (owner : ObjectMeta)
    (a : Application) : Type 0 where
  pub adoptable :
      (o : ObjectOf a.kind)
      → R.stored w (ref_of a.kind a.object) ≡ some o
      → IsAdoptable owner (meta_of a.kind o)
  pub accepted :
      (s : ObjectOf a.kind)
      → a.mutate (found_or (R.stored w (ref_of a.kind a.object)) a.object) ≡ ok s
      → A.Accepts a.kind (R.stored w (ref_of a.kind a.object)) s

module _ (R : Runtime) (A : IsAvailable R) (owner : ObjectMeta) where
  -- The action writes no object but those of the applications, and succeeds if they all may be made.
  pub record Progresses (apps : List Application) (m : Exec R.World (Unit {0})) : Type 0 where
    pub within : Within R (applied_refs apps) m
    pub succeeds : (w : R.World) → All (MayApply R A w owner) apps → (m w).0 ≡ ok tt

  pub MayApply-of_stored :
      (w v : R.World) (a : Application)
      → R.stored v (ref_of a.kind a.object) ≡ R.stored w (ref_of a.kind a.object)
      → MayApply R A w owner a
      → MayApply R A v owner a
  MayApply-of_stored w v a same may = record {
    adoptable = λ o there. may.adoptable o (sym same ∙ there);
    accepted = rw same may.accepted;
  }

  All-split :
      (w : R.World) (a b : List Application)
      → All (MayApply R A w owner) (a ++ b)
      → All (MayApply R A w owner) a × All (MayApply R A w owner) b
  All-split w [] b h = (tt, h)
  All-split w (r ∷ a) b (x, h) = let (left, right) = All-split w a b h in ((x, left), right)

  All-kept :
      (w v : R.World) (a : List Ref) (b : List Application)
      → ((r : Ref) → outside a r ≡ true → R.stored v r ≡ R.stored w r)
      → every (outside a) (applied_refs b) ≡ true
      → All (MayApply R A w owner) b
      → All (MayApply R A v owner) b
  All-kept w v a [] same out h = tt
  All-kept w v a (r ∷ b) same out (x, h) =
      let (first, rest) = and-eq-true (outside a (ref_of r.kind r.object)) _ out in
      (MayApply-of_stored w v r (same _ first) x, All-kept w v a b same rest h)

  applied_refs-append :
      (a b : List Application) → applied_refs (a ++ b) ≡ applied_refs a ++ applied_refs b
  applied_refs-append [] b = refl
  applied_refs-append (x ∷ a) b = rw (applied_refs-append a b)

  -- A sequence succeeds if its parts do, and the second applies other objects than the first.
  pub Progresses-seq :
      (m n : Exec R.World (Unit {0})) (a b : List Application)
      → Progresses a m
      → Progresses b n
      → every (outside (applied_refs a)) (applied_refs b) ≡ true
      → Progresses (a ++ b) (m >> n)
  unfolding ◌>>=◌
  Progresses-seq m n a b hm hn out = record {
    within =
        rw (applied_refs-append a b)
          (Within-seq R (applied_refs a) (applied_refs b) m n hm.within hn.within);
    succeeds = λ w h.
        let (left, right) = All-split w a b h in
        rw (hm.succeeds w left) (
          hn.succeeds (m w).1
            (All-kept w (m w).1 (applied_refs a) b (hm.within.stored w) out right));
  }

  pub Progresses-wrap_error :
      (prefix : String) (m : Exec R.World (Unit {0})) (a : List Application)
      → Progresses a m
      → Progresses a (wrap_error prefix m)
  unfolding wrap_error
  Progresses-wrap_error prefix m a h = record {
    within = Within-wrap_error R (applied_refs a) prefix m h.within;
    succeeds = λ w p. rw (h.succeeds w p);
  }

  -- One `CreateOrUpdate` succeeds if its mutate function accepts what is there, and the server what
  -- the function makes of it.
  pub Progresses-apply :
      HasFrames R
      → (k : Kind) (o : ObjectOf k) (f : ObjectOf k → Result (ObjectOf k))
      → IsAdoptable owner (meta_of k o)
      → ((b : ObjectOf k) → IsAdoptable owner (meta_of k b) → (s : ObjectOf k) × (f b ≡ ok s))
      → Progresses
          (record { kind = k; object = o; mutate = f } ∷ [])
          (R.create_or_update k o f >> pure tt)
  unfolding pure ◌>>=◌
  Progresses-apply F k o f fresh accepts = record {
    within = Within-apply R F k o f;
    succeeds = λ w (may, _).
        let r = ref_of k o in
        let (s, made) =
          accepts (found_or (R.stored w r) o) (found w may.adoptable (R.stored w r) refl) in
        let (res, done) = A.apply k o f w s made (may.accepted s made) in rw done;
  }
    where
      found :
          (w : R.World)
          → ((b : ObjectOf k) → R.stored w (ref_of k o) ≡ some b → IsAdoptable owner (meta_of k b))
          → (x : Option (ObjectOf k)) → R.stored w (ref_of k o) ≡ x
          → IsAdoptable owner (meta_of k (found_or x o))
      found w may none h = fresh
      found w may (some b) h = may b h

  -- The mutate functions that begin with `SetControllerReference`.
  pub adopting :
      {A' : Type 0} (m : ObjectMeta) (f : ObjectMeta → A')
      → IsAdoptable owner m
      → (s : A') × (Outcome.◌>>=◌ (R.set_controller_reference owner m) (λ m'. ok (f m')) ≡ ok s)
  adopting m f may = let (m', done) = A.adopt owner m may in (f m', rw done)
