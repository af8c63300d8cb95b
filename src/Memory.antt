-- ===== src/Memory.antt =====
-- A cluster in memory, in which writes of some objects are forbidden. It behaves as documented, so
-- that the laws of `Runtime` can be met, and the definitions can be run.
pub mod Utilities
pub mod Store
pub mod Server
pub mod Writes
pub mod Lawful
use kubeshark_operator.Common.{
  ℕ, String, ◌==◌, Bool, true, false, ◌&&◌, Option, none, some, List, [], ◌∷◌, ◌≡◌, ◌≢◌, ◌∙◌, refl,
  sym, ap, Result, ok, err, Error, if◌then◌else◌, arith, eq_iff, eq_refl, Bool-cases, inl, inr,
  and-eq-true,
}
use kubeshark_operator.Kube.Meta.{NamespacedName, Condition}
use kubeshark_operator.Kube.Object.{Kind, ObjectOf, Ref, ref_of, same_ref}
use kubeshark_operator.Api.{Kubeshark, key_of}
use kubeshark_operator.Runtime.{Runtime, OperationResult, created}
use kubeshark_operator.Runtime.Available.{IsAvailable}
use kubeshark_operator.Runtime.Laws.{
  HasUtilities, HasFrames, HasEffects, IsLawful, Reports, found_or, same_key, finalizers_of,
}
use kubeshark_operator.Memory.Utilities.{
  contains, add, remove, contains-add, contains-remove, set_condition, find-set_self, find-set_ne,
  set_controller, set_controller_lem, adopt_lem,
}
use kubeshark_operator.Memory.Store.{at, put, put_self, at-put_other}
use kubeshark_operator.Memory.Server.{
  operation_text, World, forbidden, read, set_resource, kept, write, remove_object, submit,
  with_status_of, update, patch_status, delete, create_or_update,
}

abbrev pub memory : (Ref → Bool) → Runtime
memory deny = record {
  World = World;
  stored = λ w r. at w.objects r;
  kubeshark = λ w key. w.resources key;
  Realises = λ k s t. s ≡ t;
  get = λ key w. (read key (w.resources key), w);
  update = update deny;
  delete = delete deny;
  patch_status = patch_status deny;
  operation_text = operation_text;
  create_or_update = create_or_update deny;
  set_controller_reference = set_controller;
  contains_finalizer = contains;
  add_finalizer = add;
  remove_finalizer = remove;
  set_status_condition = set_condition;
}
