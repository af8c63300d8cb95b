-- ===== src/Status.antt =====
-- internal/controller/status.go: `setReadyCondition`. A copy of a value is the
-- value, as Copies/Ready justifies.
pub mod Correct
use kubeshark_operator.Common.{String, Bool, true, false, none}
use kubeshark_operator.Common.Exec.{Exec, wrap_error}
use kubeshark_operator.Kube.Meta.{Condition, ConditionStatus, condition_true, condition_false}
use kubeshark_operator.Api.{Kubeshark, KubesharkStatus}
use kubeshark_operator.Runtime.{Runtime}

abbrev pub status_of : Bool → ConditionStatus
status_of true = condition_true
status_of false = condition_false

abbrev pub ready_condition : Kubeshark → Bool → String → String → Condition
ready_condition cr ready reason message = record {
  type = "Ready";
  status = status_of ready;
  observed_generation = cr.meta.generation;
  last_transition_time = none;
  reason = reason;
  message = message;
}

module _ (R : Runtime) (cr : Kubeshark) (ready : Bool) (reason message : String) where
  unfoldable pub ready_status : KubesharkStatus
  ready_status = record {
    conditions =
        R.set_status_condition cr.status.conditions (ready_condition cr ready reason message);
    observed_generation = cr.meta.generation;
  }

  unfoldable pub set_ready_condition : Exec R.World (Unit {0})
  set_ready_condition =
      wrap_error "patch status" (R.patch_status cr (record cr { status = ready_status }))
