-- ===== src/Memory/Lawful.antt =====
-- The cluster in memory behaves as documented.
use kubeshark_operator.Common.{
  Option, some, Bool, false, ◌≡◌, ◌∙◌, refl, sym, ap, subst, Bool-cases, inl, inr,
}
use kubeshark_operator.Kube.Object.{Kind, ObjectOf, Ref, ref_of}
use kubeshark_operator.Api.{Kubeshark, key_of}
use kubeshark_operator.Runtime.{created}
use kubeshark_operator.Runtime.Available.{IsAvailable}
use kubeshark_operator.Runtime.Laws.{
  HasUtilities, HasFrames, HasEffects, IsLawful, found_or, KeepsSpec,
}
use kubeshark_operator.Memory.Utilities.{
  contains-add, contains-remove, find-set_self, find-set_ne, set_controller_lem, adopt_lem,
}
use kubeshark_operator.Memory.Store.{at}
use kubeshark_operator.Memory.Server.{
  kept, with_status_of, update, patch_status, delete, create_or_update,
}
use kubeshark_operator.Memory.{memory}
use kubeshark_operator.Memory.Writes.{
  read-stored, remove_object-outcome, read-ok, write-stored, write-others, write-ok, kept-same,
  kept-live, forbidden-ne, remove_object-others, submit-others, remove_object-ok,
  remove_object-absent, submit-ok, submit-refused, write-finalizers, submit-resources,
  remove_object-resources,
}

pub memory-HasUtilities : (deny : Ref → Bool) → HasUtilities (memory deny)
memory-HasUtilities deny = record {
  set_controller = set_controller_lem;
  set_controller_again = λ owner m h. rw h;
  contains-add = contains-add;
  contains-remove = contains-remove;
  find-set = λ cs c. (
    c,
    find-set_self cs c,
    record {
      type = refl;
      status = refl;
      observed_generation = refl;
      reason = refl;
      message = refl;
    },
  );
  find-set_ne = find-set_ne;
}

module _ (deny : Ref → Bool) where
  memory-HasFrames : HasFrames (memory deny)
  unfolding update patch_status delete create_or_update
  memory-HasFrames = record {
    get = λ key w. refl;
    update_stored = λ cr w r. write-stored _ _ cr w r;
    update_others = λ cr w key h. write-others _ _ cr w key h;
    patch_stored = λ orig cr w r. write-stored _ _ cr w r;
    patch_others = λ orig cr w key h. write-others _ _ cr w key h;
    delete_others = λ d w r h. elim (Bool-cases (deny d)) [
      | inl no_way ↦ rw no_way
      | inr fine ↦ rw fine (remove_object-others d (at w.objects d) w r h)
    ];
    delete_kubeshark = λ d w key. elim (Bool-cases (deny d)) [
      | inl no_way ↦ rw no_way
      | inr fine ↦ rw fine (ap (λ f. f key) (remove_object-resources d (at w.objects d) w))
    ];
    apply_others = λ k o f w r h. elim (Bool-cases (deny (ref_of k o))) [
      | inl no_way ↦ rw no_way
      | inr fine ↦
          rw fine (submit-others (ref_of k o) (f (found_or (at w.objects (ref_of k o)) o)) w r h)
    ];
    apply_kubeshark = λ k o f w key. elim (Bool-cases (deny (ref_of k o))) [
      | inl no_way ↦ rw no_way
      | inr fine ↦ rw fine (
          ap (λ g. g key)
            (submit-resources (ref_of k o) (f (found_or (at w.objects (ref_of k o)) o)) w))
    ];
  }

  memory-HasEffects : HasEffects (memory deny)
  unfolding update patch_status delete create_or_update
  memory-HasEffects = record {
    get = λ key w cr h. read-ok key (w.resources key) cr h;
    apply = λ k o f w res h. elim (Bool-cases (deny (ref_of k o))) [
      | inl no_way ↦ cc (rw no_way at h)
      | inr fine ↦
          let (s, made, there) =
            submit-ok (ref_of k o) (f (found_or (at w.objects (ref_of k o)) o)) w res
              (rw fine at h) in
          (s, s, made, rw fine there, refl)
    ];
    apply_refused = λ k o f w e h r. elim (Bool-cases (deny (ref_of k o))) [
      | inl no_way ↦ rw no_way
      | inr fine ↦
          rw fine (submit-refused (ref_of k o) (f (found_or (at w.objects (ref_of k o)) o)) w e h r)
    ];
    delete = λ r w h. elim (Bool-cases (deny r)) [
      | inl no_way ↦ cc (rw no_way at h)
      | inr fine ↦ rw fine (remove_object-ok r (at w.objects r) w (rw fine at h))
    ];
    delete_absent = λ r w e h absent. elim (Bool-cases (deny r)) [
      | inl no_way ↦ absurd (forbidden-ne e (rw no_way at h) absent)
      | inr fine ↦ rw fine (remove_object-absent r (at w.objects r) w e refl (rw fine at h))
    ];
    update = λ cr w c h there.
        let e = kept-same _ _ cr c (sym (write-ok (w.resources (key_of cr)) _ cr w h) ∙ there) in
        record {
          key = ap key_of (sym e);
          uid = ap (λ (x : Kubeshark). x.meta.uid) (sym e);
          deletion_timestamp = ap (λ (x : Kubeshark). x.meta.deletion_timestamp) (sym e);
          finalizers = ap (λ (x : Kubeshark). x.meta.finalizers) (sym e);
          spec =
              subst (λ (x : Kubeshark). KeepsSpec cr.spec x.spec) e
                (record { replicas = inl refl; entries = inl refl; others = refl });
        };
    update_gone = λ cr w t h dying bare.
        write-ok (w.resources (key_of cr)) _ cr w h
        ∙ ap (λ d. kept d cr.meta.finalizers cr) dying
        ∙ ap (λ fs. kept (some t) fs cr) bare;
    update_live = λ cr w h live gone. cc (
      kept-live cr.meta.deletion_timestamp cr.meta.finalizers cr live,
      write-ok (w.resources (key_of cr)) _ cr w h,
      gone,
    );
    patch = λ orig cr w c h there same. (
      record c { status = cr.status },
      write-ok (w.resources (key_of cr)) _ cr w h ∙ ap (with_status_of cr) there,
      refl,
      refl,
      refl,
    );
    patch_finalizers = λ orig cr w. write-finalizers (w.resources (key_of cr)) cr w refl;
  }

pub memory-IsLawful : (deny : Ref → Bool) → IsLawful (memory deny)
memory-IsLawful deny = record {
  utilities = memory-HasUtilities deny;
  frames = memory-HasFrames deny;
  effects = memory-HasEffects deny;
}

-- A server that forbids nothing answers every write.
pub memory-IsAvailable :
    (deny : Ref → Bool) → ((r : Ref) → deny r ≡ false) → IsAvailable (memory deny)
unfolding create_or_update patch_status update delete
memory-IsAvailable deny free = record {
  Accepts = λ k old s. Unit;
  apply = λ k o f w s made accepted. rw (free (ref_of k o), made) (created, refl);
  patch = λ orig cr c w there. rw there;
  read = λ key w c there same. rw there (read-stored key c same);
  write = λ cr c w there. rw there;
  remove = λ r w. rw (free r) (remove_object-outcome r (at w.objects r) w);
  adopt = adopt_lem;
}

-- It accepts whatever is submitted.
pub memory-accepts :
    (deny : Ref → Bool) (free : (r : Ref) → deny r ≡ false) (k : Kind) (old : Option (ObjectOf k))
    (s : ObjectOf k)
    → (memory-IsAvailable deny free).Accepts k old s
unfolding memory-IsAvailable
memory-accepts deny free k old s = tt
