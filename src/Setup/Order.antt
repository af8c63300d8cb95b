-- ===== src/Setup/Order.antt =====
-- cmd/main.go: the order of the calls that `main` makes, and where it exits.
use kubeshark_operator.Common.{
  String, Bool, true, false, List, [], ◌∷◌, ◌++◌, ◌≡◌, refl, sym, ◌∙◌, subst, Result, ok, err,
}
use kubeshark_operator.Common.Exec.{Exec}
use kubeshark_operator.Reconcile.Watches.{setup_with_manager}
use kubeshark_operator.Setup.Flags.{Flags}
use kubeshark_operator.Setup.Start.{Managers, Ending, returned, exited, exit_or, try_or_exit, main}

pub data Call : Type 0 where
  new_manager complete add_healthz_check add_readyz_check start : Call

-- The calls that were made, each with whether it succeeded.
abbrev pub Log : Type 0
Log = List (Call × Bool)

abbrev is_ok : {A : Type 0} → Result A → Bool
is_ok (ok a) = true
is_ok (err e) = false

-- A call that is written down.
unfoldable pub noted : {A W : Type 0} → Call → Exec W A → Exec (Log × W) A
noted c call (log, w) = let (res, w') = call w in (res, (log ++ ((c, is_ok res) ∷ []), w'))

-- The same library, whose calls are written down.
abbrev pub logged : Managers → Managers
logged S = record {
  World = Log × S.World;
  Scheme = S.Scheme;
  Config = S.Config;
  Manager = S.Manager;
  new_manager = λ config options. noted new_manager (S.new_manager config options);
  complete = λ mgr controller. noted complete (S.complete mgr controller);
  add_healthz_check = λ mgr name. noted add_healthz_check (S.add_healthz_check mgr name);
  add_readyz_check = λ mgr name. noted add_readyz_check (S.add_readyz_check mgr name);
  start = λ mgr. noted start (S.start mgr);
}

-- The calls of a start, each with the message that is logged if it fails.
abbrev pub startup : List (Call × String)
startup =
    (new_manager, "Failed to start manager")
    ∷ (complete, "Failed to create controller")
    ∷ (add_healthz_check, "Failed to set up health check")
    ∷ (add_readyz_check, "Failed to set up ready check")
    ∷ (start, "Failed to run manager")
    ∷ []

-- A run makes the calls in turn. The first that fails is the last, and its message comes with exit
-- code 1.
pub data Runs : List (Call × String) → Log → Ending → Type 0 where
  done : Runs [] [] returned
  failed :
      {c : Call} {message : String} {later : List (Call × String)}
      → Runs ((c, message) ∷ later) ((c, false) ∷ []) (exited 1 message)
  went_on :
      {c : Call} {message : String} {later : List (Call × String)} {log : Log} {e : Ending}
      → Runs later log e
      → Runs ((c, message) ∷ later) ((c, true) ∷ log) e

-- The log grows by a run of the calls.
abbrev Follows : {W : Type 0} → List (Call × String) → Log → Ending × (Log × W) → Type 0
Follows calls log (e, (after, w)) = (new : Log) × (after ≡ log ++ new) × Runs calls new e

append-nil : (log : Log) → log ≡ log ++ []
append-nil [] = refl
append-nil (y ∷ log) = rw (sym (append-nil log))

append-snoc :
    (log : Log) (x : Call × Bool) (new : Log) → (log ++ (x ∷ [])) ++ new ≡ log ++ (x ∷ new)
append-snoc [] x new = refl
append-snoc (y ∷ log) x new = rw (append-snoc log x new)

module _ {A W : Type 0} (c : Call) (message : String) (later : List (Call × String))
    (next : A → Log × W → Ending × (Log × W))
    (follows : (a : A) (log : Log) (w : W) → Follows later log (next a (log, w))) where
  exit_or-Follows :
      (log : Log) (res : Result A) (w : W)
      → Follows
          ((c, message) ∷ later)
          log
          (exit_or message res next (log ++ ((c, is_ok res) ∷ []), w))
  exit_or-Follows log (err e) w = ((c, false) ∷ [], refl, failed)
  exit_or-Follows log (ok a) w =
      let (new, grown, runs) = follows a (log ++ ((c, true) ∷ [])) w in
      ((c, true) ∷ new, grown ∙ append-snoc log (c, true) new, went_on runs)

  try_or_exit-Follows :
      (call : Exec W A) (log : Log) (w : W)
      → Follows ((c, message) ∷ later) log (try_or_exit message (noted c call) next (log, w))
  unfolding try_or_exit noted
  try_or_exit-Follows call log w = exit_or-Follows log (call w).0 (call w).1

module _ (S : Managers) (scheme : S.Scheme) (config : S.Config) (flags : Flags) (w : S.World) where
  follows : Follows startup [] (main (logged S) scheme config flags ([], w))
  unfolding main setup_with_manager
  follows =
      try_or_exit-Follows new_manager _ _ _
        (λ mgr.
          try_or_exit-Follows complete _ _ _
            (λ _.
              try_or_exit-Follows add_healthz_check _ _ _
                (λ _.
                  try_or_exit-Follows add_readyz_check _ _ _
                    (λ _.
                      try_or_exit-Follows start _ [] _ (λ _ log w'. ([], append-nil log, done)) _)
                    _)
                _)
            _)
        _ [] w

  -- For every library, scheme, configuration and flags: `main` creates the manager, sets up the
  -- controller, adds the two checks and starts the manager, in that order, and makes no call after
  -- one that failed. It exits with code 1 and the message of the call that failed, or returns if
  -- none did.
  pub main-Runs :
      Runs startup
        (main (logged S) scheme config flags ([], w)).1.0
        (main (logged S) scheme config flags ([], w)).0
  main-Runs =
      let (new, grown, runs) = follows in
      subst (λ log. Runs startup log (main (logged S) scheme config flags ([], w)).0) (sym grown)
        runs
