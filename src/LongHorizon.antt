-- ===== src/LongHorizon.antt =====
-- core/task/transport.ts: the session of a task that runs over several stages, each by one child agent.
pub mod Validation
pub mod Session
pub mod Stages
pub mod Renewals
mod Tests
use teti_bot.Base.{
  ℕ, zero, suc, ◌+◌, ◌-◌, ◌≤◌, ◌<◌, String, ◌≡◌, refl, sym, ap, ◌∙◌, ◌≢◌, ◌↔◌, ◌⊎◌, inl, inr, Bool,
  true, false, not, ◌&&◌, ◌||◌, Option, none, some, List, [], ◌∷◌, ◌++◌, map, arith, ◌==◌, ◌!=◌,
  number_equality, text_equality, if◌then◌else◌, Result, ok, err, ◌>>=◌, ◌>>◌, All, Bool-cases,
  eq_iff,
}
use teti_bot.Callability.Execution.{ExecutionProgress}

-- `LONG_HORIZON_LIMITS`.
abbrev pub maximum_stages : ℕ
maximum_stages = 16

abbrev pub maximum_stage_artifacts : ℕ
maximum_stage_artifacts = 32

abbrev pub maximum_session_events : ℕ
maximum_session_events = 256

abbrev pub maximum_instruction_bytes : ℕ
maximum_instruction_bytes = 8192

abbrev pub maximum_renewals : ℕ
maximum_renewals = 8

abbrev pub maximum_renewal_ms : ℕ
maximum_renewal_ms = 86400000

abbrev pub maximum_lifetime_ms : ℕ
maximum_lifetime_ms = 604800000

pub data SessionPhase : Type 0 where
  pending_approval working input_required paused completed failed canceled expired : SessionPhase

pub data StageState : Type 0 where
  queued working completed failed canceled interrupted : StageState

pub data WorkspaceMutation : Type 0 where
  no_mutation snapshot_commit : WorkspaceMutation

pub data InputSource : Type 0 where
  remote_requester local_user : InputSource

pub data EntryRole : Type 0 where
  intermediate final : EntryRole

pub data SessionAction : Type 0 where
  session_created stage_started progress_updated artifact_published checkpoint_created :
      SessionAction
  input_requested input_received pause_requested paused resumed child_selected : SessionAction
  stage_failed renewed completed canceled expired restart_reconciled : SessionAction

pub data SessionActor : Type 0 where
  host local_user remote_peer child_agent : SessionActor

pub record ChildTarget : Type 0 where
  pub child_agent_id : String
  pub connector_id : String

pub record Stage : Type 0 where
  pub stage_id : String
  pub stage_index : ℕ
  pub execution_task_id : String
  pub child_agent_id : String
  pub connector_id : String
  pub state : StageState
  pub workspace_revision : ℕ
  pub workspace_mutation : WorkspaceMutation
  pub input_id : Option String
  pub instruction_digest : String
  pub progress : ExecutionProgress
  pub artifact_ids : List String
  pub checkpoint_available : Bool
  pub started_at : String
  pub updated_at : String
  pub completed_at : Option String
  pub safe_error_code : Option String

pub record StageInput : Type 0 where
  pub input_id : String
  pub instruction : String
  pub instruction_digest : String
  pub source : InputSource
  pub created_at : String
  pub consumed_at : Option String

pub record InputRequest : Type 0 where
  pub request_id : String
  pub prompt : String
  pub created_at : String

pub record Checkpoint : Type 0 where
  pub checkpoint_id : String
  pub stage_index : ℕ
  pub workspace_revision : ℕ
  pub artifact_ids : List String
  pub digest : String
  pub created_at : String

pub record ArtifactEntry : Type 0 where
  pub artifact_id : String
  pub stage_index : ℕ
  pub role : EntryRole
  pub created_at : String

pub record SessionEvent : Type 0 where
  pub event_id : String
  pub sequence : ℕ
  pub action : SessionAction
  pub actor : SessionActor
  pub stage_index : Option ℕ
  pub timestamp : String
  pub child_agent_id : Option String
  pub artifact_id : Option String
  pub input_id : Option String
  pub workspace_revision : Option ℕ
  pub safe_error_code : Option String

pub record LongHorizonState : Type 0 where
  pub schema_version : ℕ
  pub phase : SessionPhase
  pub current_stage_index : ℕ
  pub workspace_revision : ℕ
  pub progress : ExecutionProgress
  pub continuation_expires_at : String
  pub renewal_count : ℕ
  pub pause_requested : Bool
  pub pending_input : Option StageInput
  pub input_request : Option InputRequest
  pub available_child_agents : List ChildTarget
  pub stages : List Stage
  pub checkpoints : List Checkpoint
  pub artifacts : List ArtifactEntry
  pub audit : List SessionEvent
  pub updated_at : String

pub data SessionError : Type 0 where
  invalid_state invalid_id invalid_slug invalid_time invalid_code invalid_progress : SessionError
  invalid_targets duplicate_target invalid_stages invalid_stage missing_stage : SessionError
  invalid_input invalid_request invalid_checkpoints invalid_ids invalid_artifacts : SessionError
  several_finals invalid_audit audit_full pause_unavailable renewal_unavailable renewal_limit :
      SessionError
  lease_expired session_terminal : SessionError
