-- ===== src/Status/Correct.antt =====
-- What `setReadyCondition` leaves in the status, and what it leaves alone.
use kubeshark_operator.Common.{String, Bool, false, some, ◌≡◌, ◌≢◌, ◌∙◌, ap, ok}
use kubeshark_operator.Common.Exec.{wrap_error, wrap_error-ok}
use kubeshark_operator.Kube.Meta.{Condition, ConditionStatus, NamespacedName}
use kubeshark_operator.Kube.Object.{Ref}
use kubeshark_operator.Api.{Kubeshark, KubesharkStatus, key_of}
use kubeshark_operator.Runtime.{Runtime}
use kubeshark_operator.Runtime.Laws.{
  IsLawful, HasFrames, HasEffects, finalizers_of, find_condition, same_key,
}
use kubeshark_operator.Status.{status_of, ready_condition, ready_status, set_ready_condition}

-- The stored resource has a condition of type Ready with the status, reason and message, which
-- carries the generation that the operator has read; so does its observed generation. Its
-- conditions of other types are those that the operator has read.
pub record Shows (R : Runtime) (w : R.World) (cr : Kubeshark) (status : ConditionStatus)
    (reason message : String) : Type 0 where
  pub resource : Kubeshark
  pub found : R.kubeshark w (key_of cr) ≡ some resource
  pub condition : Condition
  pub ready : find_condition resource.status.conditions "Ready" ≡ some condition
  pub type : condition.type ≡ "Ready"
  pub status_shown : condition.status ≡ status
  pub reason_shown : condition.reason ≡ reason
  pub message_shown : condition.message ≡ message
  pub generation : condition.observed_generation ≡ cr.meta.generation
  pub observed : resource.status.observed_generation ≡ cr.meta.generation
  pub others :
      (t : String)
      → "Ready" ≢ t
      → find_condition resource.status.conditions t ≡ find_condition cr.status.conditions t

module _ (R : Runtime) (cr : Kubeshark) (ready : Bool) (reason message : String) where
  pub stored-set_ready_condition :
      HasFrames R
      → (w : R.World) (r : Ref)
      → R.stored (set_ready_condition R cr ready reason message w).1 r ≡ R.stored w r
  unfolding set_ready_condition wrap_error
  stored-set_ready_condition F w r = F.patch_stored cr _ w r

  pub kubeshark-set_ready_condition :
      HasFrames R
      → (w : R.World) (key : NamespacedName) → same_key (key_of cr) key ≡ false
      → R.kubeshark (set_ready_condition R cr ready reason message w).1 key ≡ R.kubeshark w key
  unfolding set_ready_condition wrap_error
  kubeshark-set_ready_condition F w key other = F.patch_others cr _ w key other

  pub finalizers-set_ready_condition :
      HasEffects R
      → (w : R.World)
      → finalizers_of (R.kubeshark (set_ready_condition R cr ready reason message w).1 (key_of cr))
        ≡ finalizers_of (R.kubeshark w (key_of cr))
  unfolding set_ready_condition wrap_error
  finalizers-set_ready_condition E w = E.patch_finalizers cr _ w

  pub set_ready_condition-Shows :
      IsLawful R
      → (w : R.World) (c : Kubeshark) → R.kubeshark w (key_of cr) ≡ some c
      → c.status ≡ cr.status
      → (set_ready_condition R cr ready reason message w).0 ≡ ok tt
      → Shows R
          (set_ready_condition R cr ready reason message w).1
          cr
          (status_of ready)
          reason
          message
  unfolding set_ready_condition wrap_error ready_status
  set_ready_condition-Shows L w c there same done =
      let want = ready_condition cr ready reason message in
      let (c', found, status, _, _) =
        L.effects.patch cr (record cr { status = ready_status R cr ready reason message }) w c
          (wrap_error-ok "patch status"
            (R.patch_status cr (record cr { status = ready_status R cr ready reason message })) w
            done)
          there same in
      let (d, ready', reports) = L.utilities.find-set cr.status.conditions want in
      let conditions = ap (λ (s : KubesharkStatus). s.conditions) status in
      record {
        resource = c';
        found = found;
        condition = d;
        ready = ap (λ cs. find_condition cs "Ready") conditions ∙ ready';
        type = reports.type;
        status_shown = reports.status;
        reason_shown = reports.reason;
        message_shown = reports.message;
        generation = reports.observed_generation;
        observed = ap (λ (s : KubesharkStatus). s.observed_generation) status;
        others = λ t other.
            ap (λ cs. find_condition cs t) conditions
            ∙ L.utilities.find-set_ne cr.status.conditions want t other;
      }
