-- ===== src/Delegation/Control.antt =====
-- service.ts: the approval of a plan, its cancelling by the user and its expiry.
use teti_bot.Delegation.{state_equality, completed, working, failed, canceled, PlanPhase}
use teti_bot.Delegation.{
  AggregationStep, AuditActor, ChildStep, DelegationError, DelegationPlan, host, plan_approved,
  plan_canceled, not_started, plan_invalid, local_user,
}
use teti_bot.Base.{
  ℕ, String, Bool, true, false, Option, none, some, List, [], ◌∷◌, ◌==◌, number_equality,
  text_equality, if◌then◌else◌, Result, ok, err, ◌>>=◌, ◌>>◌,
}
use teti_bot.Base.{find}
use teti_bot.Delegation.Validation.{validate_plan}
use teti_bot.Delegation.Planner.{PlanCreationInput, create_deterministic_plan}
use teti_bot.Delegation.Runner.{
  Stamp, Launch, is_working, append_audit, launched, start_step, entry_of, set_revision,
  modify_first, ended_step,
}

abbrev pub canceled_aggregation : Stamp → (code : String) → AggregationStep → AggregationStep
canceled_aggregation stamp code step =
    if step.state == working
    then record step {
      state = canceled;
      completed_at = some stamp.now;
      safe_error_code = some code;
    }
    else step

abbrev pub working_id : Option ChildStep → AggregationStep → Option String
working_id (some step) aggregation = some step.step_id
working_id none aggregation =
    if aggregation.state == working then some aggregation.step_id else none

abbrev pub without_child : {A : Type 0} → Option ChildStep → (unchanged changed : A) → A
without_child (some step) unchanged changed = unchanged
without_child none unchanged changed = changed

-- The cancelling of a plan by the user, or by its expiry: its first working step is canceled.
unfoldable pub cancel_plan :
    Stamp → AuditActor → (code : String) → DelegationPlan → Result DelegationError DelegationPlan
cancel_plan stamp actor code plan =
    let active = find is_working plan.children in
    append_audit stamp
      (entry_of plan_canceled actor (working_id active plan.aggregation) none (some code))
      (record plan {
        phase = canceled;
        children = modify_first is_working (ended_step stamp canceled code) plan.children;
        aggregation =
            without_child active plan.aggregation
              (canceled_aggregation stamp code plan.aggregation);
      })

abbrev pub is_over : PlanPhase → Bool
is_over completed = true
is_over failed = true
is_over canceled = true
is_over _ = false

-- expireRecord, for the plan.
unfoldable pub expire_plan : Stamp → DelegationPlan → Result DelegationError DelegationPlan
expire_plan stamp plan =
    if is_over plan.phase then ok plan else cancel_plan stamp host "TASK_EXPIRED" plan

abbrev pub starting :
    Stamp
    → Launch
    → DelegationPlan
    → ChildStep
    → Result String String
    → Result DelegationError DelegationPlan
starting stamp launch plan step (ok execution) =
    start_step stamp (set_revision launch step) execution step plan
starting stamp launch plan step (err code) = err (not_started code)

abbrev pub start_first :
    Stamp → Launch → DelegationPlan → List ChildStep → Result DelegationError DelegationPlan
start_first stamp launch plan [] = err plan_invalid
start_first stamp launch plan (step ∷ steps) =
    starting stamp launch plan step (launched launch step)

-- approveDelegation, from the plan's creation to its first start.
unfoldable pub approve_delegation :
    (parse : String → Option ℕ)
    → Stamp
    → PlanCreationInput
    → Launch
    → Result DelegationError DelegationPlan
approve_delegation parse stamp input launch = do
  plan ← create_deterministic_plan parse input
  approved ← append_audit stamp (entry_of plan_approved local_user none none none) plan
  validate_plan parse approved
  start_first stamp launch approved approved.children
