-- ===== src/Delegation/Tests.antt =====
-- Concrete plans of two children.
use teti_bot.Workspace.Validation.{validate_access}
use teti_bot.Delegation.Relations.{
  check_order, validate_state_relations, step_artifacts_ok, final_provenance_ok, phase_ok,
}
use teti_bot.Delegation.Finish.{
  finish_stage, succeeded, did_not, was_canceled, aggregating_plan, published_plan,
  complete_delegation, recorded_plan, finish_completed, finish_failed,
}
use teti_bot.Delegation.Control.{approve_delegation, cancel_plan}
use teti_bot.Base.{
  ℕ, ◌≤◌, String, ◌≡◌, refl, ◌≢◌, Option, none, some, [], ◌∷◌, number_equality, text_equality,
  Result, ok, err, is_alnum, numbered, decimal_text,
}
use teti_bot.Base.{codes, length, find}
use teti_bot.Callability.Execution.{is_safe_id, is_safe_slug}
use teti_bot.Workspace.{read, write, access_equality}
use teti_bot.Delegation.Running.{IsRunning, left}
use teti_bot.Delegation.Finishing.{IsEnded, IsNext, IsAtWork}
use teti_bot.Delegation.Finishing.{Returns}
use teti_bot.Delegation.Ending.{finish_stage-IsNext}
use teti_bot.Delegation.Canceling.{cancel_plan-IsEnded, finish_stage-canceled}
use teti_bot.Delegation.Created.{approve_delegation-IsRunning, AreWithin}
use teti_bot.Delegation.Runs.{Run, finishes, no_event, event_then, Run-validate_state_relations}
use teti_bot.Delegation.{
  DelegationError, DelegationPlan, PlanPhase, TargetOption, ChildStep, bounded_context, local_user,
  text,
}
use teti_bot.Delegation.Planner.{
  PlanCreationInput, planned, planned_step, delegation_workspace_access, planned_steps,
  create_deterministic_plan,
}
use teti_bot.Delegation.Runner.{
  Launch, Stamp, is_working, append_audit, may_start, start_step, fail_start,
}
use teti_bot.Delegation.Validation.{
  validate_budget, validate_plan, optional_safe_code, child_step_ok, validate_child,
  validate_children, validate_aggregation, check_artifacts, validate_artifacts, audit_event_ok,
  check_audit, validate_audit, metadata_ok, optional_timestamp, validate_fields,
}
use teti_bot.Delegation.Bundle.{truncate_utf8, longest_fitting, truncate_utf8-longest_fitting}

abbrev parse : String → Option ℕ
parse t = some 0

abbrev target : String → TargetOption
target agent = record {
  child_agent_id = agent;
  connector_id = "codex";
  capability_id = "summarize";
  resource_binding_id = "binding:1";
  workspace_policy = bounded_context;
  input_modes = text ∷ [];
  timeout_ms = 60000;
  max_output_bytes = 4096;
}

abbrev input : PlanCreationInput
input = record {
  task_id = "task:1";
  workspace_revision = 3;
  workspace_access = read ∷ write ∷ [];
  targets = target "reader" ∷ target "writer" ∷ [];
  timestamp = "t";
  random_ids = ("plan:1", "event:1");
}

abbrev stamp : Stamp
stamp = record { now = "t"; fresh = λ n. "event:n" }

abbrev launch : String → Launch
launch execution = record {
  target = some (target "writer");
  binding = record { workspace_revision = 3; access = read ∷ write ∷ [] };
  outcome = ok execution;
}

abbrev plan_of : Result DelegationError DelegationPlan → DelegationPlan
plan_of (ok plan) = plan
plan_of (err e) = planned input []

abbrev approved : DelegationPlan
approved = plan_of (approve_delegation parse stamp input (launch "lh_1"))

abbrev second : DelegationPlan
second = plan_of (
    finish_stage parse stamp "lh_1" (succeeded "artifact:1" (launch "lh_2") "artifact:2" 3)
      approved)

abbrev at_work : DelegationPlan → ChildStep
at_work plan = step_of (find is_working plan.children)
  where
    step_of : Option ChildStep → ChildStep
    step_of (some step) = step
    step_of none = planned_step input 0 (target "reader") []

computes : Unit {0}
unfolding validate_budget optional_safe_code child_step_ok validate_child validate_children
    validate_aggregation check_artifacts validate_artifacts audit_event_ok check_audit
    validate_audit check_order step_artifacts_ok final_provenance_ok phase_ok
    validate_state_relations metadata_ok validate_fields validate_plan delegation_workspace_access
    planned_steps planned create_deterministic_plan append_audit may_start start_step fail_start
    aggregating_plan published_plan complete_delegation recorded_plan finish_completed finish_failed
    finish_stage cancel_plan approve_delegation validate_access is_safe_id is_safe_slug is_alnum
    numbered decimal_text optional_timestamp
computes = tt

approved-IsApproved : approve_delegation parse stamp input (launch "lh_1") ≡ ok approved
unfolding computes
approved-IsApproved = refl

approved-IsAtWork : IsAtWork "lh_1" approved (at_work approved)
unfolding computes
approved-IsAtWork = (refl, refl)

approved_working : approved.phase ≡ PlanPhase.working
unfolding computes
approved_working = refl

second_made :
    finish_stage parse stamp "lh_1" (succeeded "artifact:1" (launch "lh_2") "artifact:2" 3) approved
    ≡ ok second
unfolding computes
second_made = refl

second_valid : validate_plan parse second ≡ ok tt
unfolding computes
second_valid = refl

-- Both children succeed: the plan is valid and has three artifacts.
completed_valid :
    validate_plan parse (
      plan_of (
        finish_stage parse stamp "lh_2"
          (succeeded "artifact:3" (launch "lh_3") "artifact:2" 3)
          second))
    ≡ ok tt
unfolding computes
completed_valid = refl

is_running : IsRunning approved
is_running =
    (approve_delegation-IsRunning parse stamp input (launch "lh_1") approved approved-IsApproved).0

was_success :
    (code : String)
    → succeeded "artifact:1" (launch "lh_2") "artifact:2" 3 ≢ did_not was_canceled code
was_success code e = cc

approve_delegation-IsRunning_example :
    IsRunning approved
    × (left approved.children ≡ length input.targets)
    × (length input.targets ≤ 4)
    × AreWithin input.workspace_access approved.children
approve_delegation-IsRunning_example =
    approve_delegation-IsRunning parse stamp input (launch "lh_1") approved approved-IsApproved

finish_stage-IsNext_example :
    (new : DelegationPlan) × Returns parse
      (finish_stage parse stamp "lh_1"
        (succeeded "artifact:1" (launch "lh_2") "artifact:2" 3)
        approved)
      new
    × IsNext approved new
finish_stage-IsNext_example =
    finish_stage-IsNext parse stamp "lh_1" (succeeded "artifact:1" (launch "lh_2") "artifact:2" 3)
      approved (at_work approved) is_running approved-IsAtWork was_success

finish_stage-canceled_example :
    (new : DelegationPlan) × (finish_stage parse stamp "lh_1"
        (did_not was_canceled "ADAPTER_CANCELED")
        approved
      ≡ ok new)
    × (validate_plan parse new ≢ ok tt)
finish_stage-canceled_example =
    finish_stage-canceled parse stamp "lh_1" "ADAPTER_CANCELED" approved (at_work approved)
      is_running approved-IsAtWork

cancel_plan-IsEnded_example :
    (new : DelegationPlan) × (cancel_plan stamp local_user "TASK_CANCELED_BY_USER" approved
      ≡ ok new)
    × (new.phase ≡ PlanPhase.canceled)
    × IsEnded new
cancel_plan-IsEnded_example =
    cancel_plan-IsEnded stamp local_user "TASK_CANCELED_BY_USER" approved is_running

one-Run : Run parse 1 approved second
one-Run =
    event_then approved_working
      (finishes stamp "lh_1" (succeeded "artifact:1" (launch "lh_2") "artifact:2" 3)
        (at_work approved) approved-IsAtWork was_success second_made)
      no_event

Run-validate_state_relations_example :
    (validate_state_relations second ≡ ok tt) × (1 ≤ length input.targets)
Run-validate_state_relations_example =
    Run-validate_state_relations parse stamp input (launch "lh_1") approved second 1
      approved-IsApproved one-Run

truncate_utf8-longest_fitting_example :
    truncate_utf8 (codes "Teti 完成") 8 ≡ longest_fitting 8 (codes "Teti 完成")
truncate_utf8-longest_fitting_example = truncate_utf8-longest_fitting (codes "Teti 完成") 8
