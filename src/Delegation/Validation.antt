-- ===== src/Delegation/Validation.antt =====
-- core/delegation/validation.ts: validateDelegationPlanState and its parts. Tests that a value has its
-- declared type, and no other keys, are the types of the model; `parse` is `Date.parse`.
use teti_bot.Workspace.Validation.{validate_access, includes}
use teti_bot.Delegation.{child_agent, state_equality, teti_host}
use teti_bot.Base.{
  ℕ, zero, suc, String, Bool, true, false, not, ◌&&◌, ◌||◌, Option, none, some, List, [], ◌∷◌, ◌==◌,
  ◌!=◌, number_equality, text_equality, Result, ok, err, ◌>>=◌, ◌>>◌,
}
use teti_bot.Base.{fail_if, leb, ltb, length, all, codes, numbered, max_safe_integer, is_some}
use teti_bot.Callability.Execution.{is_safe_id, is_safe_slug}
use teti_bot.Workspace.{WorkspaceAccess, access_equality}
use teti_bot.Delegation.{
  AggregationStep, ArtifactProducer, ArtifactProvenance, ArtifactRole, AuditAction, AuditEvent,
  ChildStep, DelegationError, DelegationPlan, StepBudget, aggregation_invalid, artifact_invalid,
  audit_invalid, error_invalid, intermediate, maximum_artifacts, maximum_audit_events,
  maximum_child_steps, maximum_input_bytes, plan_created, plan_invalid, plan_order, step_invalid,
  timestamp_invalid, artifact_limit, audit_limit, final, maximum_output_bytes, step_limit,
  workspace_scope, maximum_step_timeout_ms, budget_invalid,
}
use teti_bot.Delegation.Relations.{validate_state_relations}

-- `!Number.isSafeInteger(n) || n < low || n > high`, negated.
abbrev pub is_between : (low high n : ℕ) → Bool
is_between low high n = leb low n && leb n high && leb n max_safe_integer

abbrev pub optional : {A : Type 0} → (A → Bool) → Option A → Bool
optional p none = true
optional p (some a) = p a

-- `requested.every((access) => granted.includes(access))`.
abbrev pub is_workspace_access_subset : (requested granted : List WorkspaceAccess) → Bool
is_workspace_access_subset requested granted = all (λ access. includes granted access) requested

unfoldable pub validate_budget : StepBudget → Result DelegationError (Unit {0})
validate_budget budget =
    fail_if
      (not (
        is_between 1 maximum_input_bytes budget.max_input_bytes
        && is_between 1 maximum_output_bytes budget.max_output_bytes
        && is_between 10 maximum_step_timeout_ms budget.timeout_ms))
      budget_invalid

-- `[A-Z0-9_]`.
abbrev is_code_char : ℕ → Bool
is_code_char c = (leb b'A' c && leb c b'Z') || (leb b'0' c && leb c b'9') || c == b'_'

unfoldable pub optional_safe_code : Option String → Result DelegationError (Unit {0})
optional_safe_code none = ok tt
optional_safe_code (some value) =
    fail_if
      (not (
        leb 1 (length (codes value))
        && leb (length (codes value)) 64
        && all is_code_char (codes value)))
      error_invalid

-- `step:1`, `step:2` and so on, the first being number 1.
abbrev pub step_name : ℕ → String
step_name n = numbered "step:" n

abbrev pub aggregate_name : String
aggregate_name = "step:aggregate"

abbrev pub expected_dependency : (index : ℕ) → Option String
expected_dependency zero = none
expected_dependency (suc index) = some (step_name (suc index))

abbrev same_dependency : Option String → Option String → Bool
same_dependency none none = true
same_dependency (some a) (some b) = a == b
same_dependency _ _ = false

-- `dependsOnStepIds.some((id, index) => id !== `step:${index + 1}`)`, negated, from an index on.
abbrev pub names_steps : (index : ℕ) → List String → Bool
names_steps index [] = true
names_steps index (id ∷ ids) = id == step_name (suc index) && names_steps (suc index) ids

abbrev pub refuse :
    {A : Type 0} → Result A (Unit {0}) → DelegationError → Result DelegationError (Unit {0})
refuse (ok done) fault = ok tt
refuse (err e) fault = err fault

unfoldable pub child_step_ok : (index : ℕ) → ChildStep → Bool
child_step_ok index step =
    step.step_id == step_name (suc index)
    && step.step_index == suc index
    && same_dependency step.depends_on_step_id (expected_dependency index)
    && is_safe_slug step.child_agent_id
    && is_safe_slug step.connector_id
    && is_safe_slug step.capability_id
    && is_safe_id step.resource_binding_id
    && is_between 1 max_safe_integer step.workspace_revision
    && optional is_safe_id step.execution_task_id
    && leb (length step.artifact_ids) 2
    && all is_safe_id step.artifact_ids

module _ (parse : String → Option ℕ) where
  abbrev pub valid_timestamp : String → Bool
  valid_timestamp value = is_some (parse value)

  unfoldable pub optional_timestamp : Option String → Result DelegationError (Unit {0})
  optional_timestamp value = fail_if (not (optional valid_timestamp value)) timestamp_invalid

  unfoldable pub validate_child :
      (index : ℕ) (step_ids : List String) → ChildStep → Result DelegationError (Unit {0})
  validate_child index step_ids step = do
    fail_if (not (child_step_ok index step)) step_invalid
    validate_budget step.budget
    refuse (validate_access step.workspace_access) workspace_scope
    optional_timestamp step.started_at
    optional_timestamp step.completed_at
    optional_safe_code step.safe_error_code
    fail_if (includes step_ids step.step_id) step_invalid

  -- The loop over the child steps: the ids of all of them.
  unfoldable pub validate_children :
      (index : ℕ) (step_ids : List String) → List ChildStep → Result DelegationError (List String)
  validate_children index step_ids [] = ok step_ids
  validate_children index step_ids (step ∷ steps) = do
    validate_child index step_ids step
    validate_children (suc index) (step.step_id ∷ step_ids) steps

  unfoldable pub validate_aggregation :
      (child_steps : ℕ) → AggregationStep → Result DelegationError (Unit {0})
  validate_aggregation child_steps aggregation = do
    fail_if
        (not (
          aggregation.step_id == aggregate_name
          && aggregation.step_index == suc child_steps
          && length aggregation.depends_on_step_ids == child_steps
          && names_steps 0 aggregation.depends_on_step_ids
          && optional is_safe_id aggregation.artifact_id))
        aggregation_invalid
    optional_timestamp aggregation.started_at
    optional_timestamp aggregation.completed_at
    optional_safe_code aggregation.safe_error_code

  abbrev pub is_intermediate : ArtifactRole → Bool
  is_intermediate intermediate = true
  is_intermediate final = false

  -- The producer of an artifact fits its step and role.
  abbrev pub producer_ok : List String → (step_id : String) → ArtifactProducer → ArtifactRole → Bool
  producer_ok step_ids step_id (child_agent agent connector binding) role =
      includes step_ids step_id
      && is_safe_slug agent
      && is_safe_slug connector
      && is_safe_id binding
      && is_intermediate role
  producer_ok step_ids step_id teti_host role =
      step_id == aggregate_name && not (is_intermediate role)

  unfoldable pub check_artifacts :
      (step_ids artifact_ids : List String)
      → List ArtifactProvenance
      → Result DelegationError (Unit {0})
  check_artifacts step_ids artifact_ids [] = ok tt
  check_artifacts step_ids artifact_ids (entry ∷ entries) = do
    fail_if
        (not (
          is_safe_id entry.artifact_id
          && not (includes artifact_ids entry.artifact_id)
          && is_between 1 max_safe_integer entry.workspace_revision
          && valid_timestamp entry.created_at))
        artifact_invalid
    fail_if (not (producer_ok step_ids entry.step_id entry.producer entry.role)) artifact_invalid
    check_artifacts step_ids (entry.artifact_id ∷ artifact_ids) entries

  unfoldable pub validate_artifacts :
      List String → List ArtifactProvenance → Result DelegationError (Unit {0})
  validate_artifacts step_ids artifacts = do
    fail_if (ltb maximum_artifacts (length artifacts)) artifact_limit
    check_artifacts step_ids [] artifacts

  unfoldable pub audit_event_ok : List String → (index : ℕ) → AuditEvent → Bool
  audit_event_ok step_ids index event =
      is_safe_id event.event_id
      && event.sequence == suc index
      && optional (λ id. id == aggregate_name || includes step_ids id) event.step_id
      && valid_timestamp event.timestamp

  unfoldable pub check_audit :
      List String → (index : ℕ) → List AuditEvent → Result DelegationError (Unit {0})
  check_audit step_ids index [] = ok tt
  check_audit step_ids index (event ∷ events) = do
    fail_if (not (audit_event_ok step_ids index event)) audit_invalid
    fail_if (not (optional is_safe_id event.artifact_id)) audit_invalid
    optional_safe_code event.safe_error_code
    check_audit step_ids (suc index) events

  abbrev is_creation : AuditAction → Bool
  is_creation plan_created = true
  is_creation _ = false

  abbrev begins_with_creation : List AuditEvent → Bool
  begins_with_creation [] = false
  begins_with_creation (event ∷ events) = is_creation event.action

  unfoldable pub validate_audit : List String → List AuditEvent → Result DelegationError (Unit {0})
  validate_audit step_ids audit = do
    fail_if (not (is_between 1 maximum_audit_events (length audit))) audit_limit
    check_audit step_ids 0 audit
    fail_if (not (begins_with_creation audit)) audit_invalid

unfoldable pub metadata_ok : (parse : String → Option ℕ) → DelegationPlan → Bool
metadata_ok parse plan =
    plan.schema_version == 1
    && is_safe_id plan.plan_id
    && is_safe_id plan.task_id
    && plan.delegation_depth == 1
    && is_between 1 maximum_child_steps plan.maximum_child_calls
    && leb plan.current_step_index max_safe_integer
    && valid_timestamp parse plan.created_at
    && valid_timestamp parse plan.updated_at

-- `validateDelegationPlanState`, but for the relations.
unfoldable pub validate_fields :
    (parse : String → Option ℕ) → DelegationPlan → Result DelegationError (Unit {0})
validate_fields parse plan = do
  fail_if (not (metadata_ok parse plan)) plan_invalid
  fail_if (not (is_between 1 maximum_child_steps (length plan.children))) step_limit
  fail_if (length plan.children != plan.maximum_child_calls) plan_order
  step_ids ← validate_children parse 0 [] plan.children
  validate_aggregation parse (length plan.children) plan.aggregation
  validate_artifacts parse step_ids plan.artifacts
  validate_audit parse step_ids plan.audit

unfoldable pub validate_plan :
    (parse : String → Option ℕ) → DelegationPlan → Result DelegationError (Unit {0})
validate_plan parse plan = validate_fields parse plan >> validate_state_relations plan
