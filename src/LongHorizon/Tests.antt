-- ===== src/LongHorizon/Tests.antt =====
-- A concrete session, with times written as that many strokes.
use teti_bot.Workspace.Validation.{includes, all_distinct, is_sha256}
use teti_bot.Base.{
  ℕ, zero, suc, ◌+◌, ◌≤◌, String, ◌≡◌, refl, ap, ◌⊎◌, true, false, none, some, List, [], ◌∷◌, arith,
  number_equality, text_equality, Result, ok, err, all,
}
use teti_bot.Base.{length, utf16_length, is_alnum, same_codes}
use teti_bot.Callability.Execution.{
  ExecutionProgress, ProgressState, progress_ok, is_safe_id, is_safe_slug, valid_timestamp,
}
use teti_bot.LongHorizon.Stages.{indexes_of, is_stage_number, validate_stages-indexes_of}
use teti_bot.LongHorizon.Session.{
  Clock, append_event, create_session, pause_session, renew_session, require_incoming,
}
use teti_bot.LongHorizon.{
  LongHorizonState, SessionError, Stage, SessionPhase, StageState, missing_stage, no_mutation,
}
use teti_bot.LongHorizon.Renewals.{
  Call, IsBounded, perform_calls, pause, renewals, perform_calls-IsBounded, perform_call, renew,
}
use teti_bot.LongHorizon.Validation.{
  validate_long_horizon_state, validate_stages, check_id, check_slug, check_code, check_ids,
  check_targets, stage_ok, check_time, check_progress, validate_stage, check_stages, validate_input,
  validate_input_request, check_checkpoints, validate_checkpoints, check_entries,
  validate_artifact_entries, check_events, validate_audit,
}

abbrev strokes : ℕ → String
strokes zero = ""
strokes (suc n) = String.◌∷◌ "x" (strokes n)

abbrev count : String → ℕ
count String.[] = 0
count (String.◌∷◌ c s) = suc (count s)

count-strokes : (n : ℕ) → count (strokes n) ≡ n
count-strokes zero = refl
count-strokes (suc n) = ap suc (count-strokes n)

abbrev clock : Clock
clock = record { parse = λ s. some (count s); iso = strokes; fresh = λ n. "event:n" }

abbrev progress : ExecutionProgress
progress = record {
  state = ProgressState.running;
  completed_units = some 0;
  total_units = some 16;
  message = none;
  updated_at = "";
}

abbrev stage : ℕ → Stage
stage index = record {
  stage_id = "stage:1";
  stage_index = index;
  execution_task_id = "lh_1";
  child_agent_id = "reader";
  connector_id = "codex";
  state = StageState.completed;
  workspace_revision = 1;
  workspace_mutation = no_mutation;
  input_id = none;
  instruction_digest = "sha256:0123456789abcdef0123456789abcdef0123456789abcdef0123456789abcdef";
  progress = progress;
  artifact_ids = "artifact:1" ∷ [];
  checkpoint_available = true;
  started_at = "";
  updated_at = "";
  completed_at = none;
  safe_error_code = none;
}

abbrev session_of : Result SessionError LongHorizonState → LongHorizonState → LongHorizonState
session_of (ok session) other = session
session_of (err e) other = other

abbrev blank : LongHorizonState
blank = record {
  schema_version = 1;
  phase = SessionPhase.input_required;
  current_stage_index = 1;
  workspace_revision = 1;
  progress = progress;
  continuation_expires_at = strokes 5;
  renewal_count = 7;
  pause_requested = false;
  pending_input = none;
  input_request = none;
  available_child_agents = [];
  stages = stage 1 ∷ [];
  checkpoints = [];
  artifacts = [];
  audit = [];
  updated_at = "";
}

abbrev calls : List Call
calls = pause 1 ∷ renew 2 60000 ∷ []

computes : Unit {0}
unfolding append_event create_session pause_session renew_session require_incoming perform_call
    perform_calls check_id check_slug check_code check_ids check_targets stage_ok check_time
    check_progress validate_stage check_stages validate_stages validate_input validate_input_request
    check_checkpoints validate_checkpoints check_entries validate_artifact_entries check_events
    validate_audit validate_long_horizon_state progress_ok is_safe_id is_safe_slug valid_timestamp
    utf16_length is_sha256 is_alnum same_codes
computes = tt

abbrev renewed_session : LongHorizonState
renewed_session = session_of (perform_calls clock "" calls blank) blank

renewed_run : perform_calls clock "" calls blank ≡ ok renewed_session
unfolding computes
renewed_run = refl

renewed_valid : validate_long_horizon_state clock.parse renewed_session ≡ ok tt
unfolding computes
renewed_valid = refl

stages_valid : validate_stages clock.parse (stage 1 ∷ stage 2 ∷ []) 2 ≡ ok tt
unfolding computes
stages_valid = refl

refused_current : validate_stages clock.parse (stage 1 ∷ []) 2 ≡ err missing_stage
unfolding computes
refused_current = refl

blank-IsBounded : IsBounded clock 0 blank
blank-IsBounded = record { few = ground arith; expiry = 5; expires = refl; within = ground arith }

validate_stages-indexes_of_example :
    (all_distinct (indexes_of (stage 1 ∷ stage 2 ∷ [])) ≡ true)
    × (all is_stage_number (indexes_of (stage 1 ∷ stage 2 ∷ [])) ≡ true)
    × (length (stage 1 ∷ stage 2 ∷ []) ≤ 16)
    × (((stage 1 ∷ stage 2 ∷ []) ≡ []) ⊎ (includes (indexes_of (stage 1 ∷ stage 2 ∷ [])) 2 ≡ true))
validate_stages-indexes_of_example =
    validate_stages-indexes_of clock.parse (stage 1 ∷ stage 2 ∷ []) 2 stages_valid

perform_calls-IsBounded_example :
    IsBounded clock 0 renewed_session
    × (renewed_session.renewal_count ≡ blank.renewal_count + renewals calls)
perform_calls-IsBounded_example =
    perform_calls-IsBounded clock "" 0 calls blank renewed_session
      (λ time. ap some (count-strokes time)) refl blank-IsBounded renewed_run
