-- ===== src/Callability/TaskMachine.antt =====
-- core/callability/task-machine.ts: `CallableTaskStateMachine`, whose state is a snapshot of the task.
-- An operation takes the time that it stamps; one that throws leaves the snapshot as it was.
pub mod Laws
mod Tests
use teti_bot.Base.{
  ℕ, zero, suc, ◌+◌, ◌-◌, ◌≤◌, ◌<◌, String, ◌≡◌, refl, sym, ap, ◌∙◌, ◌≢◌, ◌↔◌, ◌⊎◌, inl, inr, Bool,
  true, false, not, ◌&&◌, ◌||◌, Option, none, some, List, [], ◌∷◌, ◌++◌, map, arith, ◌==◌, ◌!=◌,
  number_equality, text_equality, if◌then◌else◌, Result, ok, err, All, Bool-cases, eq_iff,
}

-- core/callability/adapter.ts: the states, the error codes and the snapshot of a callable task.
pub data TaskState : Type 0 where
  submitted working completed failed canceled : TaskState

pub data SafeErrorCode : Type 0 where
  prepare_failed launch_failed exit_nonzero timeout canceled_by_caller output_limit output_invalid :
      SafeErrorCode
  auth_required upstream_failed runtime_unavailable runtime_untrusted runtime_busy : SafeErrorCode
  model_unavailable model_load_failed insufficient_memory stream_invalid : SafeErrorCode
  image_result_missing image_result_not_ready image_result_invalid image_server_exited :
      SafeErrorCode
  image_generation_timeout image_protocol_limit workspace_conflict workspace_invalid : SafeErrorCode
  task_expired runtime_shutdown internal_error : SafeErrorCode

-- The two codes that `cancel` takes.
pub data CancelCode : Type 0 where
  adapter_canceled adapter_runtime_shutdown : CancelCode

unfoldable pub cancel_error_code : CancelCode → SafeErrorCode
cancel_error_code adapter_canceled = canceled_by_caller
cancel_error_code adapter_runtime_shutdown = runtime_shutdown

-- core/task/types.ts: the description of an image.
pub record TaskImage : Type 0 where
  pub attachment_id : String
  pub mime_type : String
  pub byte_length : ℕ
  pub width : ℕ
  pub height : ℕ
  pub sha256 : String

pub data Artifact : Type 0 where
  text : String → Artifact
  parts : String → List TaskImage → Artifact

pub record TaskRequest : Type 0 where
  pub task_id : String
  pub adapter_id : String
  pub agent_id : String
  pub capability_id : String
  pub created_at : String

pub record Snapshot : Type 0 where
  pub schema_version : ℕ
  pub task_id : String
  pub adapter_id : String
  pub agent_id : String
  pub capability_id : String
  pub state : TaskState
  pub submitted_at : String
  pub updated_at : String
  pub started_at : Option String
  pub completed_at : Option String
  pub artifact : Option Artifact
  pub safe_error_code : Option SafeErrorCode

abbrev pub callable_task_schema_version : ℕ
callable_task_schema_version = 2

-- What `requireState` and `requireNonTerminal` throw.
pub data TaskStateError : Type 0 where
  cannot_transition : (from expected : TaskState) → TaskStateError
  already_terminal : (task_id : String) → TaskStateError

unfoldable pub new_task : TaskRequest → Snapshot
new_task request = record {
  schema_version = callable_task_schema_version;
  task_id = request.task_id;
  adapter_id = request.adapter_id;
  agent_id = request.agent_id;
  capability_id = request.capability_id;
  state = submitted;
  submitted_at = request.created_at;
  updated_at = request.created_at;
  started_at = none;
  completed_at = none;
  artifact = none;
  safe_error_code = none;
}

abbrev pub is_terminal : TaskState → Bool
is_terminal completed = true
is_terminal failed = true
is_terminal canceled = true
is_terminal _ = false

abbrev pub is_submitted : TaskState → Bool
is_submitted submitted = true
is_submitted _ = false

abbrev pub is_working : TaskState → Bool
is_working working = true
is_working _ = false

without_artifact : Snapshot → Snapshot
without_artifact s = record s { artifact = none }

unfoldable pub start : String → Snapshot → Result TaskStateError Snapshot
start timestamp s =
    if is_submitted s.state
    then ok (record s { state = working; started_at = some timestamp; updated_at = timestamp })
    else err (cannot_transition s.state submitted)

unfoldable pub complete : Artifact → String → Snapshot → Result TaskStateError Snapshot
complete artifact timestamp s =
    if is_working s.state
    then ok (record s {
      state = completed;
      updated_at = timestamp;
      completed_at = some timestamp;
      artifact = some artifact;
    })
    else err (cannot_transition s.state working)

unfoldable pub fail : SafeErrorCode → String → Snapshot → Result TaskStateError Snapshot
unfolding without_artifact
fail code timestamp s =
    if is_terminal s.state
    then err (already_terminal s.task_id)
    else ok (record (without_artifact s) {
      state = failed;
      updated_at = timestamp;
      completed_at = some timestamp;
      safe_error_code = some code;
    })

unfoldable pub cancel : CancelCode → String → Snapshot → Result TaskStateError Snapshot
unfolding without_artifact cancel_error_code
cancel code timestamp s =
    if is_terminal s.state
    then err (already_terminal s.task_id)
    else ok (record (without_artifact s) {
      state = canceled;
      updated_at = timestamp;
      completed_at = some timestamp;
      safe_error_code = some (cancel_error_code code);
    })

-- A call of the machine, with the time that `now` gives it.
pub data Operation : Type 0 where
  started : (timestamp : String) → Operation
  completed_with : Artifact → (timestamp : String) → Operation
  failed_with : SafeErrorCode → (timestamp : String) → Operation
  canceled_with : CancelCode → (timestamp : String) → Operation

unfoldable pub apply : Operation → Snapshot → Result TaskStateError Snapshot
unfolding start complete fail cancel
apply (started timestamp) s = start timestamp s
apply (completed_with artifact timestamp) s = complete artifact timestamp s
apply (failed_with code timestamp) s = fail code timestamp s
apply (canceled_with code timestamp) s = cancel code timestamp s

abbrev pub kept : Snapshot → Result TaskStateError Snapshot → Snapshot
kept s (ok s') = s'
kept s (err e) = s

-- Any number of calls, of which some may throw.
unfoldable pub apply_all : List Operation → Snapshot → Snapshot
apply_all [] s = s
apply_all (op ∷ ops) s = apply_all ops (kept s (apply op s))
