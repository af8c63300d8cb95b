-- ===== src/Memory/Writes.antt =====
-- What the server's operations do to the objects and to the resources.
use kubeshark_operator.Common.{
  ◌⊎◌, ℕ, String, ◌==◌, true, false, Option, none, some, List, [], ◌∷◌, ◌≡◌, ◌∙◌, refl, sym, ap,
  Result, ok, err, Error, arith, eq_iff, eq_refl, Bool-cases, inl, inr, and-eq-true,
}
use kubeshark_operator.Kube.Meta.{NamespacedName}
use kubeshark_operator.Kube.Object.{ObjectOf, Ref, same_ref}
use kubeshark_operator.Api.{Kubeshark, key_of}
use kubeshark_operator.Runtime.{OperationResult}
use kubeshark_operator.Runtime.Laws.{same_key, finalizers_of}
use kubeshark_operator.Memory.Store.{at, put_self, at-put_other}
use kubeshark_operator.Memory.Server.{
  not_found, World, forbidden, read, kept, write, remove_object, submit, with_status_of,
}

same_key_self : (key : NamespacedName) → same_key key key ≡ true
same_key_self key = rw (eq_refl key.namespace, eq_refl key.name)

eq_of_same_key : (a b : NamespacedName) → same_key a b ≡ true → a ≡ b
eq_of_same_key a b h =
    let (space, name) = and-eq-true (a.namespace == b.namespace) (a.name == b.name) h in
    let p = (eq_iff a.namespace b.namespace).0 space in
    let q = (eq_iff a.name b.name).0 name in λ i. record { namespace = p i; name = q i }

pub read-ok :
    (key : NamespacedName) (c : Option Kubeshark) (cr : Kubeshark)
    → read key c ≡ ok cr
    → (c ≡ some cr) × (key_of cr ≡ key)
read-ok key none cr h = cc
read-ok key (some c) cr h = elim (Bool-cases (same_key (key_of c) key)) [
  | inl same ↦
      let e : c ≡ cr = cc (rw same at h) in (ap some e, ap key_of (sym e) ∙ eq_of_same_key _ _ same)
  | inr differ ↦ cc (rw differ at h)
]

pub write-stored :
    (old c : Option Kubeshark) (cr : Kubeshark) (w : World) (r : Ref)
    → at (write old c cr w).1.objects r ≡ at w.objects r
write-stored none c cr w r = refl
write-stored (some _) c cr w r = refl

pub write-others :
    (old c : Option Kubeshark) (cr : Kubeshark) (w : World) (key : NamespacedName)
    → same_key (key_of cr) key ≡ false
    → (write old c cr w).1.resources key ≡ w.resources key
write-others none c cr w key h = refl
write-others (some _) c cr w key h = rw h

pub write-ok :
    (old c : Option Kubeshark) (cr : Kubeshark) (w : World)
    → (write old c cr w).0 ≡ ok tt
    → (write old c cr w).1.resources (key_of cr) ≡ c
write-ok none c cr w h = cc
write-ok (some _) c cr w h = rw (same_key_self (key_of cr))

pub kept-same :
    (t : Option ℕ) (fs : List String) (cr c : Kubeshark) → kept t fs cr ≡ some c → cr ≡ c
kept-same none fs cr c h = cc h
kept-same (some t) [] cr c h = cc
kept-same (some t) (f ∷ fs) cr c h = cc h

pub kept-live :
    (t : Option ℕ) (fs : List String) (cr : Kubeshark) → t ≡ none → kept t fs cr ≡ some cr
kept-live none fs cr h = refl
kept-live (some t) fs cr h = cc

pub forbidden-ne :
    (e : Error) → ◌≡◌ {A = Result (Unit {0})} (err forbidden) (err e) → e.is_not_found ≡ true → ⊥
forbidden-ne e h absent = ground arith

pub remove_object-others :
    (d : Ref) (o : Option (ObjectOf d.kind)) (w : World) (r : Ref)
    → same_ref d r ≡ false
    → at (remove_object d o w).1.objects r ≡ at w.objects r
remove_object-others d none w r h = refl
remove_object-others d (some o) w r h = at-put_other d none w.objects r h

pub submit-others :
    (d : Ref) (res : Result (ObjectOf d.kind)) (w : World) (r : Ref)
    → same_ref d r ≡ false
    → at (submit d res w).1.objects r ≡ at w.objects r
submit-others d (err e) w r h = refl
submit-others d (ok s) w r h = at-put_other d (some s) w.objects r h

pub remove_object-ok :
    (d : Ref) (o : Option (ObjectOf d.kind)) (w : World)
    → (remove_object d o w).0 ≡ ok tt
    → at (remove_object d o w).1.objects d ≡ none
remove_object-ok d none w h = cc
remove_object-ok d (some o) w h = put_self d.kind d.namespace d.name none w.objects

pub remove_object-absent :
    (d : Ref) (o : Option (ObjectOf d.kind)) (w : World) (e : Error)
    → at w.objects d ≡ o
    → (remove_object d o w).0 ≡ err e
    → at (remove_object d o w).1.objects d ≡ none
remove_object-absent d none w e h f = h
remove_object-absent d (some o) w e h f = cc

pub submit-ok :
    (d : Ref) (res : Result (ObjectOf d.kind)) (w : World) (out : OperationResult)
    → (submit d res w).0 ≡ ok out
    → (s : ObjectOf d.kind) × (res ≡ ok s) × (at (submit d res w).1.objects d ≡ some s)
submit-ok d (ok s) w out h = (s, refl, put_self d.kind d.namespace d.name (some s) w.objects)
submit-ok d (err e) w out h = cc

pub submit-refused :
    (d : Ref) (res : Result (ObjectOf d.kind)) (w : World) (e : Error)
    → res ≡ err e
    → (r : Ref) → at (submit d res w).1.objects r ≡ at w.objects r
submit-refused d (ok s) w e h r = cc
submit-refused d (err x) w e h r = refl

pub write-finalizers :
    (old : Option Kubeshark) (cr : Kubeshark) (w : World)
    → w.resources (key_of cr) ≡ old
    → finalizers_of ((write old (with_status_of cr old) cr w).1.resources (key_of cr))
      ≡ finalizers_of (w.resources (key_of cr))
write-finalizers none cr w h = refl
write-finalizers (some c) cr w h = rw (same_key_self (key_of cr), h)

pub submit-resources :
    (d : Ref) (res : Result (ObjectOf d.kind)) (w : World)
    → (submit d res w).1.resources ≡ w.resources
submit-resources d (ok s) w = refl
submit-resources d (err e) w = refl

pub remove_object-resources :
    (d : Ref) (o : Option (ObjectOf d.kind)) (w : World)
    → (remove_object d o w).1.resources ≡ w.resources
remove_object-resources d none w = refl
remove_object-resources d (some o) w = refl

pub read-stored : (key : NamespacedName) (c : Kubeshark) → key_of c ≡ key → read key (some c) ≡ ok c
read-stored key c same = rw (← same) (rw (same_key_self (key_of c)))

pub remove_object-outcome :
    (d : Ref) (o : Option (ObjectOf d.kind)) (w : World)
    → ((remove_object d o w).0 ≡ ok tt)
      ⊎ ((e : Error) × ((remove_object d o w).0 ≡ err e) × (e.is_not_found ≡ true))
remove_object-outcome d none w = inr (not_found, refl, refl)
remove_object-outcome d (some o) w = inl refl
