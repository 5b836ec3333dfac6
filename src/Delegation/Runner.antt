-- ===== src/Delegation/Runner.antt =====
-- apps/desktop/lifecycle-sidecar/runtime/tasks/service.ts: what approving, running, cancelling and
-- expiring a task does to its plan. A reference to a step, which the service finds and then mutates, is
-- `modify_first` with the test that found it. `Stamp` is the time of the call and the ids that the id
-- factory makes, by the number of the event; the outcome of starting a child, which is the executor's,
-- is an argument.
use teti_bot.Delegation.Relations.{has_state}
use teti_bot.Delegation.{state_equality, working, pending, failed, StepState}
use teti_bot.Delegation.{
  AuditAction, AuditActor, ChildStep, DelegationError, DelegationPlan, TargetOption, host,
  maximum_audit_events, step_failed, step_started, audit_limit,
}
use teti_bot.Base.{
  ℕ, suc, String, Bool, false, not, ◌&&◌, Option, none, some, List, [], ◌∷◌, ◌++◌, ◌==◌,
  number_equality, text_equality, if◌then◌else◌, Result, ok, err, ◌>>◌, ◌>>=◌,
}
use teti_bot.Base.{fail_if, leb, ltb, length}
use teti_bot.Workspace.{WorkspaceAccess}
use teti_bot.Delegation.Validation.{is_workspace_access_subset, validate_plan}

pub record Stamp : Type 0 where
  pub now : String
  pub fresh : ℕ → String

pub record AuditEntry : Type 0 where
  pub action : AuditAction
  pub actor : AuditActor
  pub step_id : Option String
  pub artifact_id : Option String
  pub safe_error_code : Option String

-- The plan with the event at the end of its audit.
abbrev pub appended : Stamp → AuditEntry → DelegationPlan → DelegationPlan
appended stamp entry plan = record plan {
  audit =
      plan.audit
      ++ (record {
        event_id = stamp.fresh (suc (length plan.audit));
        sequence = suc (length plan.audit);
        action = entry.action;
        actor = entry.actor;
        step_id = entry.step_id;
        timestamp = stamp.now;
        artifact_id = entry.artifact_id;
        safe_error_code = entry.safe_error_code;
      }
          ∷ []);
  updated_at = stamp.now;
}

unfoldable pub append_audit :
    Stamp → AuditEntry → DelegationPlan → Result DelegationError DelegationPlan
append_audit stamp entry plan = do
  fail_if (leb maximum_audit_events (length plan.audit)) audit_limit
  ok (appended stamp entry plan)

-- A reference to the first element that passes the test, mutated.
abbrev pub modify_first : {A : Type 0} → (A → Bool) → (A → A) → List A → List A
modify_first p f [] = []
modify_first p f (x ∷ xs) = if p x then f x ∷ xs else x ∷ modify_first p f xs

pub record WorkspaceBinding : Type 0 where
  pub workspace_revision : ℕ
  pub access : List WorkspaceAccess

-- What a start meets: the target as it is now, the workspace's binding, and the executor's outcome,
-- which is the id of the execution or the code of what was thrown.
pub record Launch : Type 0 where
  pub target : Option TargetOption
  pub binding : WorkspaceBinding
  pub outcome : Result String String

abbrev target_fits : ChildStep → WorkspaceBinding → Option TargetOption → Bool
target_fits step binding none = false
target_fits step binding (some target) =
    target.resource_binding_id == step.resource_binding_id
    && not (ltb target.timeout_ms step.budget.timeout_ms)
    && not (ltb target.max_output_bytes step.budget.max_output_bytes)
    && is_workspace_access_subset step.workspace_access binding.access

-- The guard of startDelegationStep.
unfoldable pub may_start : Launch → ChildStep → Bool
may_start launch step = target_fits step launch.binding launch.target

abbrev pub started_step : Stamp → (revision : ℕ) → (execution : String) → ChildStep → ChildStep
started_step stamp revision execution step = record step {
  workspace_revision = revision;
  state = working;
  execution_task_id = some execution;
  started_at = some stamp.now;
}

abbrev pub ended_step : Stamp → StepState → (code : String) → ChildStep → ChildStep
ended_step stamp state code step = record step {
  state = state;
  completed_at = some stamp.now;
  safe_error_code = some code;
}

abbrev pub is_pending : ChildStep → Bool
is_pending step = has_state pending step

abbrev pub is_working : ChildStep → Bool
is_working step = has_state working step

abbrev pub entry_of :
    AuditAction → AuditActor → Option String → Option String → Option String → AuditEntry
entry_of action actor step artifact code = record {
  action = action;
  actor = actor;
  step_id = step;
  artifact_id = artifact;
  safe_error_code = code;
}

-- startDelegationStep and what startLongHorizonStage does to the plan, on the first pending child:
-- the code where it throws.
abbrev pub launched : Launch → ChildStep → Result String String
launched launch step =
    if may_start launch step then launch.outcome else err "TASK_DELEGATION_TARGET_CHANGED"

unfoldable pub start_step :
    Stamp
    → (revision : ℕ) (execution : String) → ChildStep
    → DelegationPlan
    → Result DelegationError DelegationPlan
start_step stamp revision execution step plan =
    append_audit stamp (entry_of step_started host (some step.step_id) none none) (record plan {
      children = modify_first is_pending (started_step stamp revision execution) plan.children;
      phase = working;
      current_step_index = step.step_index;
    })

-- What the catch of finishLongHorizonStage does, where the next child could not be started. The
-- revision of the step is set before the executor is asked.
unfoldable pub fail_start :
    Stamp
    → (revision : ℕ) (code : String) → ChildStep
    → DelegationPlan
    → Result DelegationError DelegationPlan
fail_start stamp revision code step plan =
    append_audit stamp (entry_of step_failed host (some step.step_id) none (some code))
      (record plan {
        children =
            modify_first is_pending
              (λ s. record (ended_step stamp failed code s) { workspace_revision = revision })
              plan.children;
        phase = failed;
        current_step_index = step.step_index;
      })

abbrev pub set_revision : Launch → ChildStep → ℕ
set_revision launch step =
    if may_start launch step then launch.binding.workspace_revision else step.workspace_revision

-- A plan whose next child could not be started is validated before it is saved.
abbrev pub start_or_fail :
    (parse : String → Option ℕ)
    → Stamp
    → Launch
    → ChildStep
    → DelegationPlan
    → Result String String
    → Result DelegationError DelegationPlan
start_or_fail parse stamp launch step plan (ok execution) =
    start_step stamp (set_revision launch step) execution step plan
start_or_fail parse stamp launch step plan (err code) = do
  new ← fail_start stamp (set_revision launch step) code step plan
  validate_plan parse new
  ok new
