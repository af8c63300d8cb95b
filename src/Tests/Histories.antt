-- ===== src/Tests/Histories.antt =====
-- Several calls of Reconcile, with edits between them.
use kubeshark_operator.Common.{
  List, [], ◌∷◌, none, some, false, ◌≡◌, ◌≢◌, refl, sym, inl, ok, arith, eq_iff, All,
}
use kubeshark_operator.Common.Exec.{pure, ◌>>=◌}
use kubeshark_operator.Kube.Meta.{ObjectMeta, meta_named}
use kubeshark_operator.Kube.Object.{cluster_role}
use kubeshark_operator.Kube.Access.{ClusterRole, cluster_role_of}
use kubeshark_operator.Api.{Kubeshark, key_of}
use kubeshark_operator.Names.{
  finalizer_name, get_or_default_string, cluster_role_name, worker_service_account_name,
  hub_service_account_name,
}
use kubeshark_operator.Names.Laws.{HasDefaultNames, hub-ne-worker}
use kubeshark_operator.Runtime.Available.{IsAvailable, Application, MayApply}
use kubeshark_operator.Memory.Store.{put}
use kubeshark_operator.Memory.Lawful.{memory-IsLawful, memory-IsAvailable, memory-accepts}
use kubeshark_operator.Memory.Server.{World, update, delete}
use kubeshark_operator.Finalizer.{
  role_ref, cluster_objects, delete_all, delete_present, reconcile_delete,
}
use kubeshark_operator.Finalizer.Correct.{IsCleared}
use kubeshark_operator.Reconcile.{reconcile, reconcile_found, finish_delete}
use kubeshark_operator.Reconcile.Isolation.{default-HasOwnNames}
use kubeshark_operator.Reconcile.History.{
  History, IsAllowed, IsVersion, start, later, own, edit, History-leaves_nothing,
}
use kubeshark_operator.Reconcile.Parts.{applications}
use kubeshark_operator.Reconcile.Renaming.{reconcile_deleted-leaves_old_role}
use kubeshark_operator.Reconcile.Convergence.{Converges, reconcile_twice-Converges}
use kubeshark_operator.Reconcile.Vanishing.{reconcile_deleted-vanishes}
use kubeshark_operator.Tests.{allow, demo, leaving, holding, permissive, resource}

reconcile_deleted-vanishes_example :
    ((reconcile permissive (key_of leaving) (holding leaving)).0 ≡ ok tt)
    × (permissive.kubeshark
          (reconcile permissive (key_of leaving) (holding leaving)).1
          (key_of leaving)
        ≡ none)
    × IsCleared permissive (reconcile permissive (key_of leaving) (holding leaving)).1 leaving
reconcile_deleted-vanishes_example =
    reconcile_deleted-vanishes permissive (memory-IsLawful allow)
      (memory-IsAvailable allow (λ r. refl)) (key_of leaving) (holding leaving) leaving 7 refl refl
      refl refl

-- A user deletes the resource, and the operator lets go of it.
deletion : IsAllowed permissive leaving (holding demo) (holding leaving)
deletion = record { held = λ h. refl; cleared = λ h. record { role = refl; binding = refl } }

own-IsVersion : IsVersion leaving leaving
own-IsVersion = record { key = refl; role = refl; binding = refl }

short-History :
    History permissive leaving
      (holding demo)
      (reconcile permissive (key_of leaving) (holding leaving)).1
short-History =
    later (later start (edit (holding leaving) deletion))
      (own (key_of leaving) leaving refl own-IsVersion)

History-leaves_nothing_example :
    IsCleared permissive (reconcile permissive (key_of leaving) (holding leaving)).1 leaving
History-leaves_nothing_example =
    History-leaves_nothing permissive (memory-IsLawful allow) leaving (holding demo)
      (reconcile permissive (key_of leaving) (holding leaving)).1 short-History (inl refl)
      reconcile_deleted-vanishes_example.1

-- The resource as it was before its cluster role was renamed.
abbrev former : Kubeshark
former = record demo { spec = record demo.spec { cluster_role_name = "former-role" } }

abbrev former_role : ClusterRole
former_role = cluster_role_of (meta_named "former-role" "")

abbrev with_former_role : World
with_former_role = record (holding leaving) {
  objects = put cluster_role "" "former-role" (some former_role) (holding leaving).objects;
}

role_was_renamed : cluster_role_name leaving ≢ cluster_role_name former
unfolding cluster_role_name get_or_default_string
role_was_renamed = λ e. ground (arith, e, eq_iff "tools-demo-kubeshark" "former-role")

former_role_is_stored : permissive.stored with_former_role (role_ref former) ≡ some former_role
unfolding put cluster_role_name get_or_default_string
former_role_is_stored = refl

leaving_returns : (reconcile permissive (key_of leaving) with_former_role).0 ≡ ok tt
unfolding reconcile reconcile_found finish_delete reconcile_delete cluster_objects delete_all
    delete_present pure ◌>>=◌ delete update put cluster_role_name get_or_default_string
leaving_returns = refl

reconcile_deleted-leaves_old_role_example :
    (permissive.stored (reconcile permissive (key_of leaving) with_former_role).1 (role_ref former)
      ≡ some former_role)
    × ((c : Kubeshark)
        → permissive.kubeshark
            (reconcile permissive (key_of leaving) with_former_role).1
            (key_of leaving)
          ≡ some c
        → permissive.contains_finalizer c.meta.finalizers finalizer_name ≡ false)
reconcile_deleted-leaves_old_role_example =
    reconcile_deleted-leaves_old_role permissive (memory-IsLawful allow) (key_of leaving)
      with_former_role former leaving 7 former_role refl refl refl leaving_returns role_was_renamed
      former_role_is_stored

-- A resource that the operator has not seen.
abbrev newcomer : Kubeshark
newcomer = resource "tools" "newcomer" [] none

newcomer_names : HasDefaultNames newcomer
newcomer_names = record {
  hub_config_map = refl;
  hub_account = refl;
  worker_account = refl;
  hub_deployment = refl;
  hub_service = refl;
  worker_daemon_set = refl;
  ingress = refl;
  role = refl;
  binding = refl;
}

newcomer_accounts : worker_service_account_name newcomer ≢ hub_service_account_name newcomer
unfolding worker_service_account_name hub_service_account_name
newcomer_accounts = λ e. hub-ne-worker "newcomer" "newcomer" (sym e)

abbrev allowing : IsAvailable permissive
allowing = memory-IsAvailable allow (λ r. refl)

nothing-MayApply :
    (owner : ObjectMeta) (apps : List Application)
    → All (MayApply permissive allowing (holding newcomer) owner) apps
nothing-MayApply owner [] = tt
nothing-MayApply owner (a ∷ apps) = (
  record {
    adoptable = λ o there. cc there;
    accepted = λ s made. memory-accepts allow (λ r. refl) _ _ s;
  },
  nothing-MayApply owner apps,
)

reconcile_twice-Converges_example :
    Converges permissive (key_of newcomer) (holding newcomer) newcomer
reconcile_twice-Converges_example =
    reconcile_twice-Converges permissive (memory-IsLawful allow) allowing (key_of newcomer)
      (holding newcomer) newcomer refl refl refl (default-HasOwnNames newcomer newcomer_names)
      newcomer_accounts (λ c kept. nothing-MayApply c.meta (applications permissive c))
