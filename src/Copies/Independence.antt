-- ===== src/Copies/Independence.antt =====
-- api/v1beta1/zz_generated.deepcopy.go: what a copy has in common with what was copied.
-- `setReadyCondition` changes the conditions of the resource after it has made such a copy, and
-- then sends the difference.
use kubeshark_operator.Common.{ℕ, ◌≡◌, refl, ◌∙◌, ap, Option, none, some}
use kubeshark_operator.Api.{SecretKubesharkSpec}
use kubeshark_operator.Copies.Pointers.{flat_layout, copy_flat-IsDeepCopy}
use kubeshark_operator.Copies.Heap.{Heap, Agree}
use kubeshark_operator.Copies.Layout.{Layout, Copied, Copier, IsDeepCopy}
use kubeshark_operator.Copies.Structs.{
  Foreign, SpecVar, StatusVar, KubesharkVar, KubesharkListVar, Cell, Library, IsCopying,
}
use kubeshark_operator.Copies.Generated.{
  or_nil, deep_copy, deep_copy_object, kubeshark_deep_copy_into, kubeshark_deep_copy,
  kubeshark_deep_copy_object, list_deep_copy, list_deep_copy_object, spec_deep_copy,
  status_deep_copy, secret_deep_copy_into, secret_deep_copy,
}
use kubeshark_operator.Copies.Values.{
  spec_layout, status_layout, kubeshark_layout, kubeshark_list_layout,
}
use kubeshark_operator.Copies.Correct.{
  spec-IsDeepCopy, status-IsDeepCopy, kubeshark-IsDeepCopy, list-IsDeepCopy,
}

or_nil-eq : {T : Type 0} (c : Option T) → or_nil c ≡ c
or_nil-eq none = refl
or_nil-eq (some c) = refl

module _ {C T V : Type 0} (L : Layout C T V) where
  -- What is read through a pointer to the type, and where it lives.
  abbrev pub read_pointer : Heap C → Option T → Option V
  read_pointer h none = none
  read_pointer h (some t) = some (L.value h t)

  abbrev pub PointeeLives : Heap C → Option T → Type 0
  PointeeLives h none = Unit
  PointeeLives h (some t) = L.Lives 0 h.next h t

  -- Nil, or a pointer to what lives between two addresses.
  abbrev pub PointeeLivesIn : ℕ → ℕ → Heap C → Option T → Type 0
  PointeeLivesIn lo hi h none = Unit
  PointeeLivesIn lo hi h (some t) = L.Lives lo hi h t

  -- The function returns nil for nil, or else a pointer to what reads the same. All its cells are new,
  -- and the cells that were there are as they were.
  pub record CopiesDeeply (copy : Copier C (Option T)) (h : Heap C) (p : Option T) : Type 0 where
    pub reads : read_pointer (copy p h).1 (copy p h).0 ≡ read_pointer h p
    pub fresh : PointeeLivesIn h.next (copy p h).1.next (copy p h).1 (copy p h).0
    pub kept : Agree 0 h.next (copy p h).1 h

  deep_copy-CopiesDeeply :
      (into : Copier C T) (p : Option T) (h : Heap C)
      → IsDeepCopy L into
      → PointeeLives h p
      → CopiesDeeply (deep_copy into) h p
  unfolding deep_copy
  deep_copy-CopiesDeeply into none h D l = record {
    reads = refl;
    fresh = tt;
    kept = λ a lo hi. refl;
  }
  deep_copy-CopiesDeeply into (some t) h D l =
      let c = D t h l in record { reads = ap (λ v. some v) c.same; fresh = c.fresh; kept = c.old }

  deep_copy_object-CopiesDeeply :
      (copy : Copier C (Option T)) (p : Option T) (h : Heap C)
      → CopiesDeeply copy h p
      → CopiesDeeply (deep_copy_object copy) h p
  unfolding deep_copy_object
  deep_copy_object-CopiesDeeply copy p h c =
      let same = or_nil-eq (copy p h).0 in
      record {
        reads = ap (read_pointer (copy p h).1) same ∙ c.reads;
        fresh = rw same c.fresh;
        kept = c.kept;
      }

  -- The copy `t'` of `t` reads in the heap `g` as `t` did, and `t` reads in `f` as it did.
  pub record IsIndependent (h : Heap C) (t t' : T) (g f : Heap C) : Type 0 where
    pub copy : L.value g t' ≡ L.value h t
    pub original : L.value f t ≡ L.value h t

  Copied-IsIndependent :
      (h h' g f : Heap C) (t t' : T)
      → L.Lives 0 h.next h t
      → Copied L h t t' h'
      → Agree h.next h'.next g h'
      → Agree 0 h.next f h'
      → IsIndependent h t t' g f
  Copied-IsIndependent h h' g f t t' l c new old = record {
    copy = L.value-Agree h.next h'.next g h' t' c.fresh new ∙ c.same;
    original = L.value-Agree 0 h.next f h t l (λ a lo hi. old a lo hi ∙ c.old a lo hi);
  }

-- All functions of the file that return a copy.
pub record AllCopyDeeply (F : Foreign) (lib : Library F) (h : Heap (Cell F))
    (p : Option (KubesharkVar F)) (l : Option (KubesharkListVar F)) (spec : Option SpecVar)
    (status : Option StatusVar) (sk : Option SecretKubesharkSpec) : Type 0 where
  pub kubeshark : CopiesDeeply (kubeshark_layout F lib) (kubeshark_deep_copy F lib) h p
  pub kubeshark_object :
      CopiesDeeply (kubeshark_layout F lib) (kubeshark_deep_copy_object F lib) h p
  pub list : CopiesDeeply (kubeshark_list_layout F lib) (list_deep_copy F lib) h l
  pub list_object : CopiesDeeply (kubeshark_list_layout F lib) (list_deep_copy_object F lib) h l
  pub kubeshark_spec : CopiesDeeply (spec_layout F lib) (spec_deep_copy F lib) h spec
  pub kubeshark_status : CopiesDeeply (status_layout F lib) (status_deep_copy F lib) h status
  pub secret : CopiesDeeply flat_layout secret_deep_copy h sk

secret-IsDeepCopy : {C : Type 0} → IsDeepCopy (flat_layout {C = C}) secret_deep_copy_into
unfolding secret_deep_copy_into
secret-IsDeepCopy t h l = copy_flat-IsDeepCopy t h l

secret_lives :
    {C : Type 0} (h : Heap C) (sk : Option SecretKubesharkSpec) → PointeeLives flat_layout h sk
secret_lives h none = tt
secret_lives h (some sk) = tt

module _ (F : Foreign) (lib : Library F) (L : IsCopying F lib) (h : Heap (Cell F)) where
  -- For every heap and pointers in it to values of the five types, where the other packages'
  -- `DeepCopyInto` make deep copies: `DeepCopy`, and `DeepCopyObject` where there is one, return nil
  -- for nil, and else a pointer to a value from which the same is read, each field, element and map
  -- entry alike. Every cell of that value is a new one, and no cell that was there is changed.
  pub deep_copy-AllCopyDeeply :
      (p : Option (KubesharkVar F)) (l : Option (KubesharkListVar F)) (spec : Option SpecVar)
      (status : Option StatusVar) (sk : Option SecretKubesharkSpec)
      → PointeeLives (kubeshark_layout F lib) h p
      → PointeeLives (kubeshark_list_layout F lib) h l
      → PointeeLives (spec_layout F lib) h spec
      → PointeeLives (status_layout F lib) h status
      → AllCopyDeeply F lib h p l spec status sk
  unfolding kubeshark_deep_copy kubeshark_deep_copy_object list_deep_copy list_deep_copy_object
      spec_deep_copy status_deep_copy secret_deep_copy
  deep_copy-AllCopyDeeply p l spec status sk hp hl hs ht =
      let kube =
        deep_copy-CopiesDeeply (kubeshark_layout F lib) _ p h (kubeshark-IsDeepCopy F lib L) hp in
      let items =
        deep_copy-CopiesDeeply (kubeshark_list_layout F lib) _ l h (list-IsDeepCopy F lib L) hl in
      record {
        kubeshark = kube;
        kubeshark_object =
            deep_copy_object-CopiesDeeply (kubeshark_layout F lib) (kubeshark_deep_copy F lib) p h
              kube;
        list = items;
        list_object =
            deep_copy_object-CopiesDeeply (kubeshark_list_layout F lib) (list_deep_copy F lib) l h
              items;
        kubeshark_spec =
            deep_copy-CopiesDeeply (spec_layout F lib) _ spec h (spec-IsDeepCopy F lib L) hs;
        kubeshark_status =
            deep_copy-CopiesDeeply (status_layout F lib) _ status h (status-IsDeepCopy F lib L) ht;
        secret = deep_copy-CopiesDeeply flat_layout _ sk h secret-IsDeepCopy (secret_lives h sk);
      }

  -- For every heap and every Kubeshark in it, where the other packages' `DeepCopyInto` make deep
  -- copies: after a copy, whatever is written to cells that the copy did not allocate, the copy
  -- reads as the resource did before; and whatever is written to cells that it did allocate, the
  -- resource reads as before.
  pub kubeshark_deep_copy_into-IsIndependent :
      (cr : KubesharkVar F) (g f : Heap (Cell F))
      → (kubeshark_layout F lib).Lives 0 h.next h cr
      → Agree h.next
          (kubeshark_deep_copy_into F lib cr h).1.next
          g
          (kubeshark_deep_copy_into F lib cr h).1
      → Agree 0 h.next f (kubeshark_deep_copy_into F lib cr h).1
      → IsIndependent (kubeshark_layout F lib) h cr (kubeshark_deep_copy_into F lib cr h).0 g f
  kubeshark_deep_copy_into-IsIndependent cr g f l new old =
      Copied-IsIndependent (kubeshark_layout F lib) h _ g f cr _ l
        (kubeshark-IsDeepCopy F lib L cr h l) new old
