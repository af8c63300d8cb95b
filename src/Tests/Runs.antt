-- ===== src/Tests/Runs.antt =====
-- Calls of Reconcile for active resources, on a server that allows every write.
use kubeshark_operator.Common.{none, ap, List, [], ◌∷◌, ◌≡◌, ◌≢◌, refl, sym, ok, All, arith, eq_iff}
use kubeshark_operator.Kube.Object.{Ref}
use kubeshark_operator.Api.{Kubeshark, key_of}
use kubeshark_operator.Names.{worker_service_account_name, hub_service_account_name}
use kubeshark_operator.Names.Laws.{HasDefaultNames, hub-ne-worker}
use kubeshark_operator.Runtime.Available.{IsAvailable, Application, MayApply}
use kubeshark_operator.Runtime.Wants.{AllPresent}
use kubeshark_operator.Memory.Lawful.{memory-IsLawful, memory-IsAvailable, memory-accepts}
use kubeshark_operator.Memory.Server.{World, read, update}
use kubeshark_operator.Kube.Meta.{condition_true}
use kubeshark_operator.Status.Correct.{Shows}
use kubeshark_operator.Hub.{reconcile_hub}
use kubeshark_operator.Reconcile.{reconcile, reconcile_found, reconcile_live, run_steps}
use kubeshark_operator.Reconcile.Loop.{sequence, report, run_steps_lem}
use kubeshark_operator.Reconcile.Adoption.{IsAdopted, reconcile_new-IsAdopted}
use kubeshark_operator.Reconcile.Wanted.{wants}
use kubeshark_operator.Reconcile.Paths.{IsActive}
use kubeshark_operator.Reconcile.Parts.{applications}
use kubeshark_operator.Reconcile.Progress.{reconcile-returns}
use kubeshark_operator.Reconcile.Specified.Objects.{specified}
use kubeshark_operator.Reconcile.Success.{
  reconcile-AllPresent, reconcile-AllWanted, reconcile-Shows,
}
use kubeshark_operator.Reconcile.Frame.{Spares, reconcile-Spares}
use kubeshark_operator.Reconcile.Isolation.{default-HasOwnNames, reconcile-keeps_neighbour}
use kubeshark_operator.Tests.{allow, demo, second, holding, holding_both, permissive, resource}

demo_names : HasDefaultNames demo
demo_names = record {
  hub_config_map = refl;
  hub_account = refl;
  worker_account = refl;
  hub_deployment = refl;
  hub_service = refl;
  worker_daemon_set = refl;
  ingress = refl;
  role = refl;
  binding = refl;
}

second_names : HasDefaultNames second
second_names = record {
  hub_config_map = refl;
  hub_account = refl;
  worker_account = refl;
  hub_deployment = refl;
  hub_service = refl;
  worker_daemon_set = refl;
  ingress = refl;
  role = refl;
  binding = refl;
}

demo_accounts : worker_service_account_name demo ≢ hub_service_account_name demo
unfolding worker_service_account_name hub_service_account_name
demo_accounts = λ e. hub-ne-worker "demo" "demo" (sym e)

second_accounts : worker_service_account_name second ≢ hub_service_account_name second
unfolding worker_service_account_name hub_service_account_name
second_accounts = λ e. hub-ne-worker "second" "second" (sym e)

abbrev allowing : IsAvailable permissive
allowing = memory-IsAvailable allow (λ r. refl)

-- Where nothing is stored, everything may be applied.
nothing-MayApply :
    (cr : Kubeshark) (w : World)
    → ((r : Ref) → permissive.stored w r ≡ none)
    → (apps : List Application) → All (MayApply permissive allowing w cr.meta) apps
nothing-MayApply cr w nothing [] = tt
nothing-MayApply cr w nothing (a ∷ apps) = (
  record {
    adoptable = λ o there. cc (nothing _, there);
    accepted = λ s made. memory-accepts allow (λ r. refl) _ _ s;
  },
  nothing-MayApply cr w nothing apps,
)

demo-IsActive : IsActive permissive (key_of demo) (holding demo) demo
demo-IsActive = record { got = refl; live = refl; held = refl }

second-IsActive : IsActive permissive (key_of second) holding_both second
second-IsActive = record { got = refl; live = refl; held = refl }

reconcile-returns_example : (reconcile permissive (key_of demo) (holding demo)).0 ≡ ok tt
reconcile-returns_example =
    reconcile-returns permissive (memory-IsLawful allow) allowing (key_of demo) (holding demo) demo
      demo-IsActive (default-HasOwnNames demo demo_names) demo_accounts
      (nothing-MayApply demo (holding demo) (λ r. refl) (applications permissive demo))

reconcile-AllPresent_example :
    AllPresent permissive (reconcile permissive (key_of demo) (holding demo)).1 (specified demo)
reconcile-AllPresent_example =
    reconcile-AllPresent permissive (memory-IsLawful allow) (key_of demo) (holding demo) demo
      demo-IsActive (default-HasOwnNames demo demo_names) reconcile-returns_example

reconcile-Shows_example :
    Shows permissive
      (reconcile permissive (key_of demo) (holding demo)).1
      demo
      condition_true
      "Reconciled"
      "All components reconciled"
reconcile-Shows_example =
    reconcile-Shows permissive (memory-IsLawful allow) (key_of demo) (holding demo) demo
      demo-IsActive reconcile-returns_example

reconcile-Spares_example :
    Spares permissive demo (holding demo) (reconcile permissive (key_of demo) (holding demo)).1
reconcile-Spares_example =
    reconcile-Spares permissive (memory-IsLawful allow) (key_of demo) (holding demo) demo refl

-- The cluster after a call for the neighbour.
abbrev settled : World
settled = (reconcile permissive (key_of second) holding_both).1

second_returns : (reconcile permissive (key_of second) holding_both).0 ≡ ok tt
second_returns =
    reconcile-returns permissive (memory-IsLawful allow) allowing (key_of second) holding_both
      second second-IsActive (default-HasOwnNames second second_names) second_accounts
      (nothing-MayApply second holding_both (λ r. refl) (applications permissive second))

second_is_present : AllPresent permissive settled (wants second)
second_is_present =
    reconcile-AllWanted permissive (memory-IsLawful allow) (key_of second) holding_both second
      second-IsActive (default-HasOwnNames second second_names) second_returns

demo_is_still_read : (permissive.get (key_of demo) settled).0 ≡ ok demo
demo_is_still_read = ap (read (key_of demo)) (
    (reconcile-Spares permissive (memory-IsLawful allow) (key_of second) holding_both second
        refl).kubeshark
      (key_of demo) refl)

reconcile-keeps_neighbour_example :
    AllPresent permissive (reconcile permissive (key_of demo) settled).1 (wants second)
reconcile-keeps_neighbour_example =
    reconcile-keeps_neighbour permissive (memory-IsLawful allow) (key_of demo) settled demo second
      demo_is_still_read demo_names second_names refl
      (λ e. ground (arith, e, eq_iff "demo" "second")) second_is_present

-- A resource that the operator has not seen.
abbrev fresh : Kubeshark
fresh = resource "tools" "fresh" [] none

fresh_returns : (reconcile permissive (key_of fresh) (holding fresh)).0 ≡ ok tt
unfolding reconcile reconcile_found reconcile_live update
fresh_returns = refl

reconcile_new-IsAdopted_example :
    IsAdopted permissive (reconcile permissive (key_of fresh) (holding fresh)).1 fresh
    × ((r : Ref)
        → permissive.stored (reconcile permissive (key_of fresh) (holding fresh)).1 r
          ≡ permissive.stored (holding fresh) r)
reconcile_new-IsAdopted_example =
    reconcile_new-IsAdopted permissive (memory-IsLawful allow) (key_of fresh) (holding fresh) fresh
      refl refl refl fresh_returns

-- A loop with one step.
run_steps_lem_example :
    run_steps permissive demo (("hub", reconcile_hub permissive demo []) ∷ []) (holding demo)
    ≡ report permissive demo
        (sequence permissive (("hub", reconcile_hub permissive demo []) ∷ []) (holding demo)).0
        (sequence permissive (("hub", reconcile_hub permissive demo []) ∷ []) (holding demo)).1
run_steps_lem_example =
    run_steps_lem permissive demo (("hub", reconcile_hub permissive demo []) ∷ []) (holding demo)
