-- ===== src/Delegation/Planner.antt =====
-- core/delegation/planner.ts: createDeterministicDelegationPlan. `random_ids` gives the two ids that the
-- id factory makes, the plan's and its first event's; `timestamp` is the time of the call.
use teti_bot.Workspace.Validation.{includes}
use teti_bot.Delegation.{
  state_equality, pending, pending_approval, ChildStep, DelegationError, TargetOption,
  WorkspacePolicy, DelegationPlan, maximum_input_bytes, snapshot, workspace_scope,
  maximum_child_steps, maximum_output_bytes, plan_created, planner_disabled, local_user,
  maximum_step_timeout_ms, step_limit,
}
use teti_bot.Base.{
  ℕ, suc, String, Bool, true, false, not, ◌||◌, Option, none, List, [], ◌∷◌, map, ◌==◌,
  number_equality, text_equality, if◌then◌else◌, Result, ok, err, ◌>>=◌, ◌>>◌,
}
use teti_bot.Base.{fail_if, leb, ltb, length}
use teti_bot.Workspace.{WorkspaceAccess, read, access_equality}
use teti_bot.Delegation.Validation.{validate_plan, step_name, aggregate_name, expected_dependency}

pub record PlanCreationInput : Type 0 where
  pub task_id : String
  pub workspace_revision : ℕ
  pub workspace_access : List WorkspaceAccess
  pub targets : List TargetOption
  pub timestamp : String
  pub random_ids : String × String

abbrev pub is_snapshot : WorkspacePolicy → Bool
is_snapshot snapshot = true
is_snapshot _ = false

unfoldable pub delegation_workspace_access :
    TargetOption → (granted : List WorkspaceAccess) → Result DelegationError (List WorkspaceAccess)
delegation_workspace_access target granted = do
  fail_if (not (includes granted read)) workspace_scope
  ok (if not (is_snapshot target.workspace_policy) then read ∷ [] else granted)

-- `Math.min`.
abbrev at_most : (n limit : ℕ) → ℕ
at_most n limit = if leb n limit then n else limit

abbrev pub planned_step :
    PlanCreationInput → (index : ℕ) → TargetOption → List WorkspaceAccess → ChildStep
planned_step input index target access = record {
  step_id = step_name (suc index);
  step_index = suc index;
  depends_on_step_id = expected_dependency index;
  child_agent_id = target.child_agent_id;
  connector_id = target.connector_id;
  capability_id = target.capability_id;
  resource_binding_id = target.resource_binding_id;
  budget = record {
    max_input_bytes = maximum_input_bytes;
    max_output_bytes = at_most target.max_output_bytes maximum_output_bytes;
    timeout_ms = at_most target.timeout_ms maximum_step_timeout_ms;
  };
  workspace_revision = input.workspace_revision;
  workspace_access = access;
  state = pending;
  execution_task_id = none;
  artifact_ids = [];
  started_at = none;
  completed_at = none;
  safe_error_code = none;
}

-- `input.targets.map`, from an index on.
unfoldable pub planned_steps :
    PlanCreationInput → (index : ℕ) → List TargetOption → Result DelegationError (List ChildStep)
planned_steps input index [] = ok []
planned_steps input index (target ∷ targets) = do
  access ← delegation_workspace_access target input.workspace_access
  steps ← planned_steps input (suc index) targets
  ok (planned_step input index target access ∷ steps)

unfoldable pub planned : PlanCreationInput → List ChildStep → DelegationPlan
planned input steps = record {
  schema_version = 1;
  plan_id = input.random_ids.0;
  task_id = input.task_id;
  phase = pending_approval;
  delegation_depth = 1;
  maximum_child_calls = length steps;
  current_step_index = 0;
  children = steps;
  aggregation = record {
    step_id = aggregate_name;
    step_index = suc (length steps);
    depends_on_step_ids = map (λ step. step.step_id) steps;
    state = pending;
    artifact_id = none;
    started_at = none;
    completed_at = none;
    safe_error_code = none;
  };
  artifacts = [];
  audit =
      record {
        event_id = input.random_ids.1;
        sequence = 1;
        action = plan_created;
        actor = local_user;
        step_id = none;
        timestamp = input.timestamp;
        artifact_id = none;
        safe_error_code = none;
      }
      ∷ [];
  created_at = input.timestamp;
  updated_at = input.timestamp;
}

module _ (parse : String → Option ℕ) where
  unfoldable pub create_deterministic_plan :
      PlanCreationInput → Result DelegationError DelegationPlan
  create_deterministic_plan input = do
    fail_if (length input.targets == 0 || ltb maximum_child_steps (length input.targets)) step_limit
    steps ← planned_steps input 0 input.targets
    validate_plan parse (planned input steps)
    ok (planned input steps)

-- `DisabledDelegationPlanner.plan`.
abbrev pub disabled_plan : {A : Type 0} → A → Result DelegationError DelegationPlan
disabled_plan input = err planner_disabled
