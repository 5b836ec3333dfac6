-- ===== src/Delegation.antt =====
-- core/delegation/types.ts: plans that run a task by child agents, one step after the other. A plan's
-- steps are its children followed by the aggregation, which is the only order that the validation
-- allows; fields that have one value only (`kind`, `plannerMode`, `source`, `remoteAgentAccess`,
-- `instructionMode`, `strategy`, `resourceId`) are left out.
pub mod Validation
pub mod Relations
pub mod Planner
pub mod Runner
pub mod Finish
pub mod Control
pub mod Bundle
pub mod Order
pub mod Steps
pub mod Provenance
pub mod Created
pub mod Running
pub mod Remaining
pub mod Planned
pub mod Finishing
pub mod Recording
pub mod Ending
pub mod Canceling
pub mod Runs
mod Tests
use teti_bot.Base.{
  ℕ, zero, suc, ◌+◌, ◌-◌, ◌≤◌, ◌<◌, String, ◌≡◌, refl, sym, ap, ◌∙◌, ◌≢◌, ◌↔◌, ◌⊎◌, inl, inr, Bool,
  true, false, not, ◌&&◌, ◌||◌, Option, none, some, List, [], ◌∷◌, ◌++◌, map, arith, ◌==◌, ◌!=◌,
  number_equality, text_equality, if◌then◌else◌, Result, ok, err, ◌>>=◌, ◌>>◌, All, Bool-cases,
  eq_iff,
}
use teti_bot.Base.{Comparable}
use teti_bot.Workspace.{WorkspaceAccess}

-- `DELEGATION_LIMITS`.
abbrev pub maximum_child_steps : ℕ
maximum_child_steps = 4

abbrev pub maximum_artifacts : ℕ
maximum_artifacts = 8

abbrev pub maximum_audit_events : ℕ
maximum_audit_events = 64

abbrev pub maximum_step_timeout_ms : ℕ
maximum_step_timeout_ms = 900000

abbrev pub maximum_input_bytes : ℕ
maximum_input_bytes = 24576

abbrev pub maximum_output_bytes : ℕ
maximum_output_bytes = 57344

pub data PlanPhase : Type 0 where
  pending_approval working aggregating completed failed canceled interrupted : PlanPhase

pub data StepState : Type 0 where
  pending working completed failed canceled interrupted : StepState

pub data WorkspacePolicy : Type 0 where
  snapshot bounded_context none_at_all : WorkspacePolicy

pub data Mode : Type 0 where
  text image : Mode

pub record TargetOption : Type 0 where
  pub child_agent_id : String
  pub connector_id : String
  pub capability_id : String
  pub resource_binding_id : String
  pub workspace_policy : WorkspacePolicy
  pub input_modes : List Mode
  pub timeout_ms : ℕ
  pub max_output_bytes : ℕ

pub record StepBudget : Type 0 where
  pub max_input_bytes : ℕ
  pub max_output_bytes : ℕ
  pub timeout_ms : ℕ

pub record ChildStep : Type 0 where
  pub step_id : String
  pub step_index : ℕ
  pub depends_on_step_id : Option String
  pub child_agent_id : String
  pub connector_id : String
  pub capability_id : String
  pub resource_binding_id : String
  pub budget : StepBudget
  pub workspace_revision : ℕ
  pub workspace_access : List WorkspaceAccess
  pub state : StepState
  pub execution_task_id : Option String
  pub artifact_ids : List String
  pub started_at : Option String
  pub completed_at : Option String
  pub safe_error_code : Option String

pub record AggregationStep : Type 0 where
  pub step_id : String
  pub step_index : ℕ
  pub depends_on_step_ids : List String
  pub state : StepState
  pub artifact_id : Option String
  pub started_at : Option String
  pub completed_at : Option String
  pub safe_error_code : Option String

pub data ArtifactProducer : Type 0 where
  child_agent : (child_agent_id connector_id resource_binding_id : String) → ArtifactProducer
  teti_host : ArtifactProducer

pub data ArtifactRole : Type 0 where
  intermediate final : ArtifactRole

pub record ArtifactProvenance : Type 0 where
  pub artifact_id : String
  pub step_id : String
  pub producer : ArtifactProducer
  pub workspace_revision : ℕ
  pub role : ArtifactRole
  pub created_at : String

pub data AuditAction : Type 0 where
  plan_created plan_approved step_started artifact_recorded step_completed step_failed : AuditAction
  aggregation_started plan_completed plan_canceled restart_reconciled : AuditAction

pub data AuditActor : Type 0 where
  host local_user child : AuditActor

pub record AuditEvent : Type 0 where
  pub event_id : String
  pub sequence : ℕ
  pub action : AuditAction
  pub actor : AuditActor
  pub step_id : Option String
  pub timestamp : String
  pub artifact_id : Option String
  pub safe_error_code : Option String

pub record DelegationPlan : Type 0 where
  pub schema_version : ℕ
  pub plan_id : String
  pub task_id : String
  pub phase : PlanPhase
  pub delegation_depth : ℕ
  pub maximum_child_calls : ℕ
  pub current_step_index : ℕ
  pub children : List ChildStep
  pub aggregation : AggregationStep
  pub artifacts : List ArtifactProvenance
  pub audit : List AuditEvent
  pub created_at : String
  pub updated_at : String

pub data DelegationStep : Type 0 where
  child_execution : ChildStep → DelegationStep
  artifact_aggregation : AggregationStep → DelegationStep

pub data DelegationError : Type 0 where
  plan_invalid step_limit plan_order step_invalid budget_invalid workspace_scope : DelegationError
  aggregation_invalid artifact_limit artifact_invalid audit_limit audit_invalid : DelegationError
  timestamp_invalid error_invalid plan_state target_changed planner_disabled : DelegationError
  not_started : (code : String) → DelegationError

abbrev pub state_number : StepState → ℕ
state_number pending = 0
state_number working = 1
state_number completed = 2
state_number failed = 3
state_number canceled = 4
state_number interrupted = 5

abbrev pub same_state : StepState → StepState → Bool
same_state a b = state_number a == state_number b

pub same_state_iff : (a b : StepState) → (same_state a b ≡ true) ↔ (a ≡ b)
same_state_iff a b = ground arith

instance abbrev pub state_equality : Comparable StepState
state_equality = record { test = same_state; test_iff = same_state_iff }
