-- ===== src/Delegation/Running.antt =====
-- A plan while one of its children is at work, and what the end of that child's execution makes of it.
use teti_bot.Workspace.Validation.{includes, all_distinct}
use teti_bot.Delegation.Relations.{
  has_state, validate_state_relations, phase_ok, step_artifacts_ok, final_provenance_ok, of_step,
}
use teti_bot.Delegation.{
  state_equality, completed, working, pending, StepState, ChildStep, DelegationError,
  DelegationPlan, ArtifactProvenance,
}
use teti_bot.Base.{
  ℕ, ◌+◌, ◌≤◌, ◌≡◌, refl, ◌∙◌, Bool, true, false, not, ◌&&◌, List, arith, ◌==◌, number_equality,
  text_equality, if◌then◌else◌, Result, ok, err, ◌*◌, subst,
}
use teti_bot.Base.{all, length, filter, is_ok}
use teti_bot.Delegation.Order.{is_ordered, check_order_iff}
use teti_bot.Delegation.Provenance.{
  IsUnpublished, ids_of, unpublished_ok, ids_of-modify_first, all-modify_first,
}
use teti_bot.Delegation.Steps.{At, at-is_only_target, at-is_ordered}
use teti_bot.Delegation.Runner.{modify_first}

-- The steps that are not completed.
abbrev pub left : List ChildStep → ℕ
left steps = length (filter (λ step. not (has_state completed step)) steps)

-- What holds of the steps and artifacts of a plan from its creation to its aggregation.
pub record IsSound (plan : DelegationPlan) : Type 0 where
  pub agreeing : all (step_artifacts_ok plan.artifacts) plan.children ≡ true
  pub unpublished : IsUnpublished plan.artifacts plan.aggregation
  pub not_begun : plan.aggregation.state ≡ pending
  pub distinct : all_distinct (ids_of plan.children) ≡ true
  pub apart : includes (ids_of plan.children) plan.aggregation.step_id ≡ false

-- One child is at work, at the current index; the audit has room for the rest of the plan.
pub record IsRunning (plan : DelegationPlan) : Type 0 where
  pub sound : IsSound plan
  pub phase_working : plan.phase ≡ working
  pub at_work : At working plan.current_step_index plan.children
  pub room : length plan.audit + 3 * left plan.children ≤ 15

ok_of_is_ok : (r : Result DelegationError (Unit {0})) → is_ok r ≡ true → r ≡ ok tt
ok_of_is_ok (ok done) h = refl
ok_of_is_ok (err e) h = ground arith

-- The relations of a plan's states, from its parts.
pub relations_hold :
    (plan : DelegationPlan)
    → is_ordered plan.children ≡ true
    → all (step_artifacts_ok plan.artifacts) plan.children ≡ true
    → final_provenance_ok plan.artifacts plan.aggregation ≡ true
    → phase_ok plan.phase plan ≡ true
    → validate_state_relations plan ≡ ok tt
unfolding validate_state_relations
relations_hold plan ordered agreeing published phase =
    let in_order = ok_of_is_ok _ (check_order_iff plan.children ∙ ordered) in
    rw in_order (rw agreeing (rw published (rw phase refl)))

-- A plan with one step in a state that its phase names.
pub at-relations :
    (plan : DelegationPlan) (state : StepState)
    → IsSound plan
    → (pending == state) ≡ false
    → (completed == state) ≡ false
    → (state == completed) ≡ false
    → At state plan.current_step_index plan.children
    → phase_ok plan.phase plan ≡ true
    → validate_state_relations plan ≡ ok tt
at-relations plan state sound n m other at phase =
    relations_hold plan (at-is_ordered state plan.current_step_index plan.children other at)
      sound.agreeing
      (unpublished_ok plan.artifacts plan.aggregation (rw sound.not_begun refl) sound.unpublished)
      phase

-- A running plan passes the check of its states.
pub IsRunning-relations :
    (plan : DelegationPlan) → IsRunning plan → validate_state_relations plan ≡ ok tt
unfolding phase_ok
IsRunning-relations plan running =
    at-relations plan working running.sound refl refl refl running.at_work (
      rw running.phase_working (
        at-is_only_target working plan.current_step_index plan.children _ refl refl
          (rw running.sound.not_begun refl) running.at_work))

-- A step changed without its artifacts.
pub same_artifacts :
    (provenance : List ArtifactProvenance) (step new : ChildStep)
    → new.step_id ≡ step.step_id
    → new.artifact_ids ≡ step.artifact_ids
    → has_state completed step ≡ false
    → has_state completed new ≡ false
    → step_artifacts_ok provenance step ≡ true
    → step_artifacts_ok provenance new ≡ true
unfolding step_artifacts_ok
same_artifacts provenance step new id ids n m h = rw id (
    rw ids (
      rw m (
        subst
          (λ b.
            (length step.artifact_ids == (if b then 1 else 0)
              && length (filter (of_step step.step_id) provenance) == length step.artifact_ids
              && all (λ entry. includes step.artifact_ids entry.artifact_id)
                  (filter (of_step step.step_id) provenance))
            ≡ true)
          n h)))

-- The plan stays sound where a step that is not completed changes without its artifacts.
pub IsSound-modify_first :
    (plan new : DelegationPlan) (p : ChildStep → Bool) (f : ChildStep → ChildStep)
    → new.children ≡ modify_first p f plan.children
    → new.artifacts ≡ plan.artifacts
    → new.aggregation ≡ plan.aggregation
    → ((s : ChildStep)
        → ((f s).step_id ≡ s.step_id)
          × ((f s).artifact_ids ≡ s.artifact_ids)
          × (has_state completed (f s) ≡ false))
    → ((s : ChildStep) → p s ≡ true → has_state completed s ≡ false)
    → IsSound plan
    → IsSound new
IsSound-modify_first plan new p f children artifacts aggregation keeps other sound = record {
  agreeing = rw children (
      rw artifacts (
        all-modify_first (step_artifacts_ok plan.artifacts) p f plan.children
          (λ s ps agrees.
            same_artifacts plan.artifacts s (f s) (keeps s).0 (keeps s).1 (other s ps) (keeps s).2
              agrees)
          sound.agreeing));
  unpublished = rw artifacts (rw aggregation sound.unpublished);
  not_begun = rw aggregation sound.not_begun;
  distinct = rw children (rw ids sound.distinct);
  apart = rw children (rw aggregation (rw ids sound.apart));
}
  where
    ids : ids_of (modify_first p f plan.children) ≡ ids_of plan.children
    ids = ids_of-modify_first p f plan.children (λ s. (keeps s).0)
