-- ===== src/LongHorizon/Validation.antt =====
-- core/task/long-horizon-validation.ts. Tests that a value has its declared type, and no other keys, are
-- the types of the model; `parse` is `Date.parse`.
use teti_bot.Workspace.Validation.{is_sha256, includes, all_distinct}
use teti_bot.LongHorizon.{SessionError}
use teti_bot.LongHorizon.{
  intermediate, final, ArtifactEntry, Checkpoint, ChildTarget, InputRequest, LongHorizonState,
  SessionEvent, Stage, StageInput, EntryRole, duplicate_target, invalid_checkpoints, invalid_code,
  invalid_id, invalid_ids, invalid_request, invalid_slug, invalid_stage, invalid_time,
  maximum_instruction_bytes, maximum_renewals, maximum_session_events, maximum_stage_artifacts,
  maximum_stages, invalid_artifacts, invalid_audit, invalid_input, invalid_stages, invalid_state,
  invalid_targets, missing_stage, several_finals,
}
use teti_bot.Base.{
  ℕ, suc, String, Bool, true, false, not, ◌&&◌, ◌||◌, Option, none, some, List, [], ◌∷◌, ◌==◌, ◌!=◌,
  number_equality, text_equality, Result, ok, ◌>>=◌, ◌>>◌,
}
use teti_bot.Base.{
  fail_if, leb, ltb, length, all, any, filter, codes, max_safe_integer, is_some, is_blank,
  utf8_length, utf16_length,
}
use teti_bot.Callability.Execution.{is_safe_id, is_safe_slug, progress_ok, ExecutionProgress}

abbrev pub is_positive : ℕ → Bool
is_positive n = leb 1 n && leb n max_safe_integer

-- `null` passes.
abbrev pub optionally : {A : Type 0} → (A → Bool) → Option A → Bool
optionally p none = true
optionally p (some a) = p a

-- `undefined` passes.
abbrev pub check_optional :
    {A : Type 0} → (A → Result SessionError (Unit {0})) → Option A → Result SessionError (Unit {0})
check_optional check none = ok tt
check_optional check (some a) = check a

unfoldable pub check_id : String → Result SessionError (Unit {0})
check_id value = fail_if (not (is_safe_id value)) invalid_id

unfoldable pub check_slug : String → Result SessionError (Unit {0})
check_slug value = fail_if (not (is_safe_slug value)) invalid_slug

-- `[A-Z0-9_]`.
abbrev is_code_char : ℕ → Bool
is_code_char c = (leb b'A' c && leb c b'Z') || (leb b'0' c && leb c b'9') || c == b'_'

-- `/^[A-Z0-9_]{1,64}$/`.
unfoldable pub check_code : String → Result SessionError (Unit {0})
check_code value =
    fail_if
      (not (
        leb 1 (length (codes value))
        && leb (length (codes value)) 64
        && all is_code_char (codes value)))
      invalid_code

unfoldable pub check_ids : List String → (maximum : ℕ) → Result SessionError (Unit {0})
check_ids ids maximum =
    fail_if (ltb maximum (length ids) || not (all is_safe_id ids) || not (all_distinct ids))
      invalid_ids

abbrev pub same_target : ChildTarget → ChildTarget → Bool
same_target a b = a.child_agent_id == b.child_agent_id && a.connector_id == b.connector_id

-- The loop over the targets. Neither slug has a colon, so the key is the pair.
unfoldable pub check_targets :
    (seen : List ChildTarget) → List ChildTarget → Result SessionError (Unit {0})
check_targets seen [] = ok tt
check_targets seen (target ∷ targets) = do
  check_slug target.child_agent_id
  check_slug target.connector_id
  fail_if (any (same_target target) seen) duplicate_target
  check_targets (target ∷ seen) targets

unfoldable pub stage_ok : (indexes : List ℕ) → Stage → Bool
stage_ok indexes stage =
    is_positive stage.stage_index
    && leb stage.stage_index maximum_stages
    && not (includes indexes stage.stage_index)
    && is_positive stage.workspace_revision
    && optionally is_safe_id stage.input_id
    && is_sha256 (codes stage.instruction_digest)

module _ (parse : String → Option ℕ) where
  unfoldable pub check_time : String → Result SessionError (Unit {0})
  check_time value = fail_if (not (is_some (parse value))) invalid_time

  unfoldable pub check_progress : ExecutionProgress → Result SessionError (Unit {0})
  check_progress progress = fail_if (not (progress_ok parse progress)) SessionError.invalid_progress

  unfoldable pub validate_stage : (indexes : List ℕ) → Stage → Result SessionError (Unit {0})
  validate_stage indexes stage = do
    check_id stage.stage_id
    check_id stage.execution_task_id
    check_slug stage.child_agent_id
    check_slug stage.connector_id
    fail_if (not (stage_ok indexes stage)) invalid_stage
    check_progress stage.progress
    check_ids stage.artifact_ids maximum_stage_artifacts
    check_time stage.started_at
    check_time stage.updated_at
    check_optional check_time stage.completed_at
    check_optional check_code stage.safe_error_code

  -- The loop over the stages: the indexes of all of them.
  unfoldable pub check_stages : (indexes : List ℕ) → List Stage → Result SessionError (List ℕ)
  check_stages indexes [] = ok indexes
  check_stages indexes (stage ∷ stages) = do
    validate_stage indexes stage
    check_stages (stage.stage_index ∷ indexes) stages

  unfoldable pub validate_stages : List Stage → (current : ℕ) → Result SessionError (Unit {0})
  validate_stages stages current = do
    fail_if (ltb maximum_stages (length stages)) invalid_stages
    indexes ← check_stages [] stages
    fail_if (not (length stages == 0) && not (includes indexes current)) missing_stage

  unfoldable pub validate_input : StageInput → Result SessionError (Unit {0})
  validate_input input = do
    check_id input.input_id
    fail_if
        (is_blank input.instruction
          || ltb maximum_instruction_bytes (utf8_length (codes input.instruction))
          || not (is_sha256 (codes input.instruction_digest)))
        invalid_input
    check_time input.created_at
    check_optional check_time input.consumed_at

  unfoldable pub validate_input_request : InputRequest → Result SessionError (Unit {0})
  validate_input_request request = do
    check_id request.request_id
    fail_if (is_blank request.prompt || ltb 240 (utf16_length (codes request.prompt)))
        invalid_request
    check_time request.created_at

  unfoldable pub check_checkpoints : List Checkpoint → Result SessionError (Unit {0})
  check_checkpoints [] = ok tt
  check_checkpoints (checkpoint ∷ checkpoints) = do
    check_id checkpoint.checkpoint_id
    fail_if
        (not (
          is_positive checkpoint.stage_index
          && is_positive checkpoint.workspace_revision
          && is_sha256 (codes checkpoint.digest)))
        invalid_checkpoints
    check_ids checkpoint.artifact_ids maximum_stage_artifacts
    check_time checkpoint.created_at
    check_checkpoints checkpoints

  unfoldable pub validate_checkpoints : List Checkpoint → Result SessionError (Unit {0})
  validate_checkpoints checkpoints = do
    fail_if (ltb maximum_stages (length checkpoints)) invalid_checkpoints
    check_checkpoints checkpoints

  abbrev pub is_final : ArtifactEntry → Bool
  is_final entry = of_role entry.role
    where
      of_role : EntryRole → Bool
      of_role final = true
      of_role intermediate = false

  unfoldable pub check_entries :
      (ids : List String) → List ArtifactEntry → Result SessionError (Unit {0})
  check_entries ids [] = ok tt
  check_entries ids (entry ∷ entries) = do
    check_id entry.artifact_id
    fail_if
        (includes ids entry.artifact_id
          || not (is_positive entry.stage_index)
          || ltb maximum_stages entry.stage_index)
        invalid_artifacts
    check_time entry.created_at
    check_entries (entry.artifact_id ∷ ids) entries

  unfoldable pub validate_artifact_entries : List ArtifactEntry → Result SessionError (Unit {0})
  validate_artifact_entries entries = do
    fail_if (ltb maximum_stage_artifacts (length entries)) invalid_artifacts
    check_entries [] entries
    fail_if (ltb 1 (length (filter is_final entries))) several_finals

  unfoldable pub check_events : (index : ℕ) → List SessionEvent → Result SessionError (Unit {0})
  check_events index [] = ok tt
  check_events index (event ∷ events) = do
    check_id event.event_id
    fail_if (event.sequence != suc index || not (optionally is_positive event.stage_index))
        invalid_audit
    check_time event.timestamp
    check_optional check_slug event.child_agent_id
    check_optional check_id event.artifact_id
    check_optional check_id event.input_id
    check_optional (λ revision. fail_if (not (is_positive revision)) invalid_audit)
        event.workspace_revision
    check_optional check_code event.safe_error_code
    check_events (suc index) events

  unfoldable pub validate_audit : List SessionEvent → Result SessionError (Unit {0})
  validate_audit events = do
    fail_if (length events == 0 || ltb maximum_session_events (length events)) invalid_audit
    check_events 0 events

  unfoldable pub validate_long_horizon_state : LongHorizonState → Result SessionError (Unit {0})
  validate_long_horizon_state session = do
    fail_if
        (not (
          session.schema_version == 1
          && leb session.current_stage_index max_safe_integer
          && is_positive session.workspace_revision
          && leb session.renewal_count maximum_renewals))
        invalid_state
    check_progress session.progress
    check_time session.continuation_expires_at
    check_time session.updated_at
    check_optional validate_input session.pending_input
    check_optional validate_input_request session.input_request
    fail_if (ltb 32 (length session.available_child_agents)) invalid_targets
    check_targets [] session.available_child_agents
    validate_stages session.stages session.current_stage_index
    validate_checkpoints session.checkpoints
    validate_artifact_entries session.artifacts
    validate_audit session.audit
