-- ===== src/Tests/Deletions.antt =====
-- Calls of Reconcile for a resource that is being deleted, and what they leave.
use kubeshark_operator.Common.{false, some, none, ◌≡◌, refl, ok, inl}
use kubeshark_operator.Common.Exec.{pure, ◌>>=◌}
use kubeshark_operator.Api.{Kubeshark, key_of}
use kubeshark_operator.Names.{finalizer_name}
use kubeshark_operator.Names.Laws.{role_names_collide}
use kubeshark_operator.Memory.Lawful.{memory-IsLawful}
use kubeshark_operator.Memory.Server.{update, delete}
use kubeshark_operator.Finalizer.{cluster_objects, delete_all, delete_present, reconcile_delete}
use kubeshark_operator.Finalizer.Correct.{IsCleared}
use kubeshark_operator.Reconcile.{reconcile, reconcile_found, finish_delete}
use kubeshark_operator.Reconcile.Guard.{IsGuarded, reconcile-IsGuarded}
use kubeshark_operator.Reconcile.Deletion.{reconcile_deleted-IsCleared}
use kubeshark_operator.Reconcile.Sharing.{IsAlike, reconcile_deleted-clears_alike}
use kubeshark_operator.Tests.{allow, held, leaving, holding, resource, permissive}

-- The two cluster-scoped objects are not there; the last finalizer takes the resource along.
leaving_returns : (reconcile permissive (key_of leaving) (holding leaving)).0 ≡ ok tt
unfolding reconcile reconcile_found finish_delete reconcile_delete cluster_objects delete_all
    delete_present pure ◌>>=◌ delete update
leaving_returns = refl

leaving_vanishes :
    permissive.kubeshark
      (reconcile permissive (key_of leaving) (holding leaving)).1
      (key_of leaving)
    ≡ none
unfolding reconcile reconcile_found finish_delete reconcile_delete cluster_objects delete_all
    delete_present pure ◌>>=◌ delete update
leaving_vanishes = refl

reconcile_deleted-IsCleared_example :
    IsCleared permissive (reconcile permissive (key_of leaving) (holding leaving)).1 leaving
    × ((c : Kubeshark)
        → permissive.kubeshark
            (reconcile permissive (key_of leaving) (holding leaving)).1
            (key_of leaving)
          ≡ some c
        → permissive.contains_finalizer c.meta.finalizers finalizer_name ≡ false)
reconcile_deleted-IsCleared_example =
    reconcile_deleted-IsCleared permissive (memory-IsLawful allow) (key_of leaving)
      (holding leaving) leaving 7 refl refl refl leaving_returns

reconcile-IsGuarded_example :
    IsGuarded permissive leaving (reconcile permissive (key_of leaving) (holding leaving)).1
reconcile-IsGuarded_example =
    reconcile-IsGuarded permissive (memory-IsLawful allow) (key_of leaving) (holding leaving)
      leaving refl (inl refl)

-- `team-a` and `demo` join to the same text as `team` and `a-demo`.
abbrev first_team : Kubeshark
first_team = resource "team-a" "demo" held (some 7)

abbrev other_team : Kubeshark
other_team = resource "team" "a-demo" held none

first_team_returns : (reconcile permissive (key_of first_team) (holding first_team)).0 ≡ ok tt
unfolding reconcile reconcile_found finish_delete reconcile_delete cluster_objects delete_all
    delete_present pure ◌>>=◌ delete update
first_team_returns = refl

teams-IsAlike : IsAlike first_team other_team
teams-IsAlike = record {
  joined = role_names_collide "team" "a" "demo";
  x_role = refl;
  y_role = refl;
  x_binding = refl;
  y_binding = refl;
}

reconcile_deleted-clears_alike_example :
    IsCleared permissive
      (reconcile permissive (key_of first_team) (holding first_team)).1
      other_team
reconcile_deleted-clears_alike_example =
    reconcile_deleted-clears_alike permissive (memory-IsLawful allow) (key_of first_team)
      (holding first_team) first_team other_team 7 refl refl refl first_team_returns teams-IsAlike
