-- ===== src/Delegation/Finish.antt =====
-- service.ts: what finishLongHorizonStage does to a plan, with completeDelegation.
use teti_bot.Delegation.{
  child_agent, teti_host, state_equality, completed, working, failed, canceled, interrupted,
  StepState, PlanPhase, aggregating, final, intermediate,
}
use teti_bot.Delegation.{
  AuditAction, ChildStep, DelegationError, DelegationPlan, aggregation_started, artifact_recorded,
  host, restart_reconciled, step_failed, child, plan_completed, step_completed,
}
use teti_bot.Base.{
  ℕ, String, Bool, false, Option, none, some, [], ◌∷◌, ◌++◌, ◌==◌, number_equality, text_equality,
  Result, ok, ◌>>=◌, ◌>>◌,
}
use teti_bot.Base.{find}
use teti_bot.Delegation.Validation.{validate_plan}
use teti_bot.Delegation.Runner.{
  Launch, Stamp, append_audit, modify_first, start_or_fail, entry_of, launched, ended_step,
  is_pending,
}

-- completeDelegation, with the id of the final artifact, and the validation of the plan that it ends with.
unfoldable pub aggregating_plan : Stamp → DelegationPlan → DelegationPlan
aggregating_plan stamp plan = record plan {
  phase = aggregating;
  current_step_index = plan.aggregation.step_index;
  updated_at = stamp.now;
  aggregation = record plan.aggregation { state = working; started_at = some stamp.now };
}

unfoldable pub published_plan :
    Stamp → (artifact : String) (revision : ℕ) → DelegationPlan → DelegationPlan
published_plan stamp artifact revision plan = record plan {
  aggregation = record plan.aggregation {
    state = completed;
    artifact_id = some artifact;
    completed_at = some stamp.now;
  };
  artifacts =
      plan.artifacts
      ++ (record {
        artifact_id = artifact;
        step_id = plan.aggregation.step_id;
        producer = teti_host;
        workspace_revision = revision;
        role = final;
        created_at = stamp.now;
      }
          ∷ []);
  phase = completed;
  updated_at = stamp.now;
}

unfoldable pub complete_delegation :
    (parse : String → Option ℕ)
    → Stamp
    → (artifact : String) (revision : ℕ) → DelegationPlan
    → Result DelegationError DelegationPlan
complete_delegation parse stamp artifact revision plan = do
  let id = some plan.aggregation.step_id
  begun ←
      append_audit stamp (entry_of aggregation_started host id none none)
        (aggregating_plan stamp plan)
  recorded ←
      append_audit stamp (entry_of artifact_recorded host id (some artifact) none)
        (published_plan stamp artifact revision begun)
  new ← append_audit stamp (entry_of plan_completed host id (some artifact) none) recorded
  validate_plan parse new
  ok new

-- What follows a completed step: the next child is started, or its plan fails and is validated, or all are
-- completed.
abbrev pub continue_with :
    (parse : String → Option ℕ)
    → Stamp
    → Launch
    → (final_artifact : String) (revision : ℕ) → DelegationPlan
    → Option ChildStep
    → Result DelegationError DelegationPlan
continue_with parse stamp launch final_artifact revision plan none =
    complete_delegation parse stamp final_artifact revision plan
continue_with parse stamp launch final_artifact revision plan (some step) =
    start_or_fail parse stamp launch step plan (launched launch step)

abbrev pub ran : String → ChildStep → Bool
ran execution step = is_execution step.execution_task_id
  where
    is_execution : Option String → Bool
    is_execution none = false
    is_execution (some id) = id == execution

-- The child's artifact recorded.
unfoldable pub recorded_plan :
    Stamp
    → (execution artifact : String) (revision : ℕ) → ChildStep
    → DelegationPlan
    → DelegationPlan
recorded_plan stamp execution artifact revision step plan = record plan {
  children =
      modify_first (ran execution)
        (λ s. record s {
          state = completed;
          completed_at = some stamp.now;
          artifact_ids = artifact ∷ [];
        })
        plan.children;
  artifacts =
      plan.artifacts
      ++ (record {
        artifact_id = artifact;
        step_id = step.step_id;
        producer = child_agent step.child_agent_id step.connector_id step.resource_binding_id;
        workspace_revision = revision;
        role = intermediate;
        created_at = stamp.now;
      }
          ∷ []);
}

-- The branch of finishLongHorizonStage for a child that succeeded.
unfoldable pub finish_completed :
    (parse : String → Option ℕ)
    → Stamp
    → (execution artifact : String) → Launch
    → (final_artifact : String) (revision : ℕ) → ChildStep
    → DelegationPlan
    → Result DelegationError DelegationPlan
finish_completed parse stamp execution artifact launch final_artifact revision step plan = do
  let id = some step.step_id
  recorded ←
      append_audit stamp (entry_of artifact_recorded child id (some artifact) none)
        (recorded_plan stamp execution artifact revision step plan)
  done ← append_audit stamp (entry_of step_completed host id none none) recorded
  continue_with parse stamp launch final_artifact revision done (find is_pending done.children)

-- How an execution that did not succeed ended.
pub data Failure : Type 0 where
  was_interrupted was_canceled has_failed : Failure

abbrev pub failure_state : Failure → StepState
failure_state was_interrupted = interrupted
failure_state was_canceled = canceled
failure_state has_failed = failed

abbrev pub failure_phase : Failure → PlanPhase
failure_phase was_interrupted = interrupted
failure_phase was_canceled = failed
failure_phase has_failed = failed

abbrev pub failure_action : Failure → AuditAction
failure_action was_interrupted = restart_reconciled
failure_action was_canceled = step_failed
failure_action has_failed = step_failed

-- The branches for a child that did not succeed, and for a conflict of its workspace's revisions, which
-- is a failure.
unfoldable pub finish_failed :
    Stamp
    → (execution : String) → Failure
    → (code : String) → ChildStep
    → DelegationPlan
    → Result DelegationError DelegationPlan
finish_failed stamp execution failure code step plan =
    append_audit stamp (entry_of (failure_action failure) host (some step.step_id) none (some code))
      (record plan {
        children =
            modify_first (ran execution) (ended_step stamp (failure_state failure) code)
              plan.children;
        phase = failure_phase failure;
      })

pub data Outcome : Type 0 where
  succeeded :
      (artifact : String) (launch : Launch) (final_artifact : String) (revision : ℕ) → Outcome
  did_not : Failure → (code : String) → Outcome

abbrev pub finish_found :
    (parse : String → Option ℕ)
    → Stamp
    → (execution : String) → Outcome
    → DelegationPlan
    → Option ChildStep
    → Result DelegationError DelegationPlan
finish_found parse stamp execution outcome plan none = ok plan
finish_found parse stamp execution (succeeded artifact launch final_artifact revision) plan
      (some step) =
    finish_completed parse stamp execution artifact launch final_artifact revision step plan
finish_found parse stamp execution (did_not failure code) plan (some step) =
    finish_failed stamp execution failure code step plan

-- finishLongHorizonStage, for the plan of the task.
unfoldable pub finish_stage :
    (parse : String → Option ℕ)
    → Stamp
    → (execution : String) → Outcome
    → DelegationPlan
    → Result DelegationError DelegationPlan
finish_stage parse stamp execution outcome plan =
    finish_found parse stamp execution outcome plan (find (ran execution) plan.children)
