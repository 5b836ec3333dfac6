-- ===== src/Callability/Execution.antt =====
-- core/callability/execution.ts: execution handles and their validation. The tests that a value has its
-- declared type are the types here; `parse` is `Date.parse`, `none` being NaN.
use teti_bot.Base.{
  ℕ, String, Bool, true, false, not, ◌&&◌, ◌||◌, Option, none, some, List, [], ◌∷◌, ◌==◌,
  number_equality, text_equality, Result, ◌>>◌,
}
use teti_bot.Base.{
  utf16_length, fail_if, leb, ltb, length, all, codes, is_alnum, max_safe_integer, is_some,
}

pub data ExecutionError : Type 0 where
  invalid_handle invalid_progress invalid_capabilities checkpoint_required : ExecutionError
  resume_unavailable checkpoint_integrity_failed handle_exists capacity_exhausted : ExecutionError
  invalid_store checkpoint_escape copy_failed : ExecutionError

pub record ConnectorCapabilities : Type 0 where
  pub supports_progress : Bool
  pub supports_pause : Bool
  pub supports_resume : Bool
  pub supports_checkpoint : Bool
  pub supports_cancel : Bool

pub data ExecutionSemantics : Type 0 where
  workspace_pure_compute external_side_effects_possible : ExecutionSemantics

pub data ProgressState : Type 0 where
  queued running paused interrupted canceling canceled completed failed : ProgressState

pub record ExecutionProgress : Type 0 where
  pub state : ProgressState
  pub completed_units : Option ℕ
  pub total_units : Option ℕ
  pub message : Option String
  pub updated_at : String

pub data ResumeCapability : Type 0 where
  cannot_resume checkpoint_restart : ResumeCapability

pub record ExecutionHandle : Type 0 where
  pub schema_version : ℕ
  pub task_id : String
  pub workspace_id : String
  pub child_agent_id : String
  pub connector_id : String
  pub execution_epoch : ℕ
  pub provider_execution_id : Option String
  pub lease_expires_at : String
  pub progress : ExecutionProgress
  pub checkpoint_ref : Option String
  pub resume_capability : ResumeCapability

abbrev pub execution_handle_schema_version : ℕ
execution_handle_schema_version = 1

abbrev pub is_checkpoint_restart : ResumeCapability → Bool
is_checkpoint_restart checkpoint_restart = true
is_checkpoint_restart cannot_resume = false

-- `isTerminalExecutionProgress`.
abbrev pub is_terminal : ProgressState → Bool
is_terminal completed = true
is_terminal failed = true
is_terminal canceled = true
is_terminal _ = false

unfoldable pub validate_capabilities : ConnectorCapabilities → Result ExecutionError (Unit {0})
validate_capabilities c = do
  fail_if (c.supports_resume && not c.supports_checkpoint) invalid_capabilities
  fail_if (c.supports_pause && not c.supports_resume) invalid_capabilities

-- `[A-Za-z0-9._:-]`.
abbrev is_id_char : ℕ → Bool
is_id_char c = is_alnum c || c == b'.' || c == b'_' || c == b':' || c == b'-'

-- `/^[A-Za-z0-9][A-Za-z0-9._:-]{0,191}$/`.
is_safe_id_codes : List ℕ → Bool
is_safe_id_codes [] = false
is_safe_id_codes (c ∷ cs) = is_alnum c && all is_id_char cs && leb (length cs) 191

unfoldable pub is_safe_id : String → Bool
unfolding is_safe_id_codes
is_safe_id s = is_safe_id_codes (codes s)

-- `[a-z0-9]`.
abbrev is_slug_char : ℕ → Bool
is_slug_char c = (leb b'a' c && leb c b'z') || (leb b'0' c && leb c b'9')

abbrev is_separator : ℕ → Bool
is_separator c = c == b'.' || c == b'_' || c == b'-'

-- `/^[a-z0-9]+(?:[._-][a-z0-9]+)*$/`: a separator stands between two characters of the other kind.
is_slug_from : (after_char : Bool) → List ℕ → Bool
is_slug_from after_char [] = after_char
is_slug_from after_char (c ∷ cs) =
    (is_slug_char c || (after_char && is_separator c)) && is_slug_from (is_slug_char c) cs

unfoldable pub is_safe_slug : String → Bool
unfolding is_slug_from
is_safe_slug s = is_slug_from false (codes s)

abbrev is_line_break : ℕ → Bool
is_line_break c = c == 13 || c == 10 || c == 0

unfoldable pub is_safe_provider_id : String → Bool
unfolding utf16_length
is_safe_provider_id s =
    ltb 0 (utf16_length (codes s))
    && leb (utf16_length (codes s)) 256
    && all (λ c. not (is_line_break c)) (codes s)

-- A `null` passes.
abbrev optional : {A : Type 0} → (A → Bool) → Option A → Bool
optional p none = true
optional p (some a) = p a

-- `value.completedUnits > value.totalUnits`, where both are given.
abbrev exceeds : Option ℕ → Option ℕ → Bool
exceeds (some a) (some b) = ltb b a
exceeds _ _ = false

abbrev pub at_most_units : ℕ → String → Bool
at_most_units n s = leb (utf16_length (codes s)) n

unfoldable pub valid_timestamp : (parse : String → Option ℕ) → String → Bool
valid_timestamp parse s = is_some (parse s)

unfoldable pub progress_ok : (parse : String → Option ℕ) → ExecutionProgress → Bool
unfolding utf16_length valid_timestamp
progress_ok parse p =
    optional (λ n. leb n max_safe_integer) p.completed_units
    && optional (λ n. leb n max_safe_integer) p.total_units
    && not (exceeds p.completed_units p.total_units)
    && optional (at_most_units 240) p.message
    && valid_timestamp parse p.updated_at

-- The condition of `validateExecutionHandle`'s first test.
unfoldable pub handle_ok : (parse : String → Option ℕ) → ExecutionHandle → Bool
unfolding utf16_length valid_timestamp
handle_ok parse h =
    h.schema_version == execution_handle_schema_version
    && is_safe_id h.task_id
    && is_safe_id h.workspace_id
    && is_safe_slug h.child_agent_id
    && is_safe_slug h.connector_id
    && leb h.execution_epoch max_safe_integer
    && leb 1 h.execution_epoch
    && optional is_safe_provider_id h.provider_execution_id
    && valid_timestamp parse h.lease_expires_at
    && optional (at_most_units 2048) h.checkpoint_ref

unfoldable pub validate_handle :
    (parse : String → Option ℕ) → ExecutionHandle → Result ExecutionError (Unit {0})
validate_handle parse h = do
  fail_if (not (handle_ok parse h)) invalid_handle
  fail_if (not (progress_ok parse h.progress)) invalid_progress
  fail_if (is_checkpoint_restart h.resume_capability && not (is_some h.checkpoint_ref))
      checkpoint_required
