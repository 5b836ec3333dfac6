-- ===== src/Delegation/Relations.antt =====
-- core/delegation/validation.ts: validateStateRelations.
use teti_bot.Workspace.Validation.{includes}
use teti_bot.Delegation.{
  state_equality, completed, working, pending, failed, canceled, interrupted, StepState, PlanPhase,
}
use teti_bot.Base.{
  ℕ, String, Bool, true, false, not, ◌&&◌, Option, none, some, List, [], ◌∷◌, ◌++◌, map, ◌==◌,
  number_equality, text_equality, if◌then◌else◌, Result, ok, ◌>>◌,
}
use teti_bot.Base.{fail_if, length, all, filter}
use teti_bot.Workspace.{access_equality}
use teti_bot.Delegation.{
  AggregationStep, ArtifactProvenance, ChildStep, DelegationError, DelegationPlan, DelegationStep,
  aggregation_invalid, artifact_invalid, child_execution, plan_order, artifact_aggregation,
  plan_state, pending_approval, aggregating,
}

abbrev pub of_step : String → ArtifactProvenance → Bool
of_step step_id entry = entry.step_id == step_id

abbrev pub has_state : StepState → ChildStep → Bool
has_state state step = step.state == state

-- The loop on the order of the steps.
unfoldable pub check_order :
    (found_non_completed : Bool) → List ChildStep → Result DelegationError (Unit {0})
check_order found [] = ok tt
check_order found (step ∷ steps) =
    let as_completed = fail_if found plan_order >> check_order found steps in
    let as_other =
      fail_if (found && not (has_state pending step)) plan_order >> check_order true steps in
    if has_state completed step then as_completed else as_other

unfoldable pub step_artifacts_ok : List ArtifactProvenance → ChildStep → Bool
step_artifacts_ok provenance step =
    length step.artifact_ids == (if has_state completed step then 1 else 0)
    && length (filter (of_step step.step_id) provenance) == length step.artifact_ids
    && all (λ entry. includes step.artifact_ids entry.artifact_id)
        (filter (of_step step.step_id) provenance)

-- `finalProvenance.length !== 1 || finalProvenance[0]?.artifactId !== aggregation.artifactId`, negated.
abbrev is_exactly : Option String → List ArtifactProvenance → Bool
is_exactly (some id) (entry ∷ []) = entry.artifact_id == id
is_exactly _ _ = false

abbrev is_unpublished : Option String → List ArtifactProvenance → Bool
is_unpublished none [] = true
is_unpublished _ _ = false

unfoldable pub final_provenance_ok : List ArtifactProvenance → AggregationStep → Bool
final_provenance_ok provenance aggregation =
    let published = filter (of_step aggregation.step_id) provenance in
    if aggregation.state == completed
    then is_exactly aggregation.artifact_id published
    else is_unpublished aggregation.artifact_id published

abbrev pub step_state : DelegationStep → StepState
step_state (child_execution step) = step.state
step_state (artifact_aggregation step) = step.state

abbrev pub index_of : DelegationStep → ℕ
index_of (child_execution step) = step.step_index
index_of (artifact_aggregation step) = step.step_index

-- `[...childSteps, aggregation]`.
abbrev pub steps_of : DelegationPlan → List DelegationStep
steps_of plan = map child_execution plan.children ++ (artifact_aggregation plan.aggregation ∷ [])

abbrev pub in_state : StepState → List DelegationStep → List DelegationStep
in_state state steps = filter (λ step. step_state step == state) steps

-- Exactly one step, and the current index is its own.
abbrev pub is_only_target : (current : ℕ) → List DelegationStep → Bool
is_only_target current (step ∷ []) = current == index_of step
is_only_target current _ = false

unfoldable pub phase_ok : PlanPhase → DelegationPlan → Bool
phase_ok pending_approval plan =
    plan.current_step_index == 0
    && all (has_state pending) plan.children
    && plan.aggregation.state == pending
phase_ok working plan = is_only_target plan.current_step_index (in_state working (steps_of plan))
phase_ok aggregating plan =
    all (has_state completed) plan.children
    && plan.aggregation.state == working
    && plan.current_step_index == plan.aggregation.step_index
phase_ok completed plan =
    all (has_state completed) plan.children
    && plan.aggregation.state == completed
    && plan.current_step_index == plan.aggregation.step_index
phase_ok failed plan = is_only_target plan.current_step_index (in_state failed (steps_of plan))
phase_ok interrupted plan =
    is_only_target plan.current_step_index
      (in_state interrupted (map child_execution plan.children))
phase_ok canceled plan = is_only_target plan.current_step_index (in_state canceled (steps_of plan))

unfoldable pub validate_state_relations : DelegationPlan → Result DelegationError (Unit {0})
validate_state_relations plan = do
  check_order false plan.children
  fail_if (not (all (step_artifacts_ok plan.artifacts) plan.children)) artifact_invalid
  fail_if (not (final_provenance_ok plan.artifacts plan.aggregation)) aggregation_invalid
  fail_if (not (phase_ok plan.phase plan)) plan_state
