-- ===== src/Delegation/Canceling.antt =====
-- The cancelling of a running plan, by the user or by its expiry, and a child that was canceled.
use teti_bot.Delegation.Recording.{room_small}
use teti_bot.Delegation.Relations.{
  validate_state_relations, phase_ok, in_state, check_order, step_artifacts_ok, final_provenance_ok,
}
use teti_bot.Delegation.Finish.{did_not, was_canceled, finish_stage}
use teti_bot.Delegation.Control.{cancel_plan, without_child, canceled_aggregation, working_id}
use teti_bot.Delegation.Runner.{Stamp, ended_step, is_working, appended, entry_of, modify_first}
use teti_bot.Delegation.{
  state_equality, completed, working, pending, failed, canceled, StepState, ChildStep,
  DelegationStep, AuditActor, DelegationPlan, child_execution, artifact_aggregation, plan_canceled,
}
use teti_bot.Base.{
  ℕ, String, ◌≡◌, refl, sym, ap, ◌∙◌, ◌≢◌, inl, inr, true, false, not, Option, none, some, List, [],
  ◌∷◌, ◌++◌, map, arith, ◌==◌, number_equality, text_equality, ok, >>-eq-ok, fail_if->>-eq-ok, all,
  fail_if-eq-ok,
}
use teti_bot.Base.{length, find}
use teti_bot.Delegation.Validation.{validate_plan, validate_fields}
use teti_bot.Delegation.Steps.{
  At, pending-in_state, at-modify_first, has_state-true, at-is_only_target, has_state-false,
}
use teti_bot.Delegation.Running.{IsRunning, left, IsSound-modify_first, at-relations}
use teti_bot.Delegation.Finishing.{IsAtWork, IsEnded, working_open}
use teti_bot.Delegation.Ending.{
  finish_failed_plan, failed_plan-At, failed_plan-IsSound, failed_plan,
}
use teti_bot.Delegation.Remaining.{append_audit_room}

at-find :
    (i : ℕ) (steps : List ChildStep)
    → At working i steps
    → (step : ChildStep) × (find is_working steps ≡ some step)
at-find i [] h = elim h [ ]
at-find i (step ∷ steps) (inl (s, j, rest)) = (step, rw (has_state-true working step s) refl)
at-find i (step ∷ steps) (inr (c, h)) =
    let (found, e) = at-find i steps h in
    (found, rw (has_state-false working completed step refl c) e)

-- The plan that is canceled.
abbrev canceled_plan : Stamp → AuditActor → (code : String) → DelegationPlan → DelegationPlan
canceled_plan stamp actor code plan =
    let active = find is_working plan.children in
    appended stamp
      (entry_of plan_canceled actor (working_id active plan.aggregation) none (some code))
      (record plan {
        phase = canceled;
        children = modify_first is_working (ended_step stamp canceled code) plan.children;
        aggregation =
            without_child active plan.aggregation
              (canceled_aggregation stamp code plan.aggregation);
      })

same_aggregation :
    (stamp : Stamp) (actor : AuditActor) (code : String) (plan : DelegationPlan)
    → IsRunning plan
    → (canceled_plan stamp actor code plan).aggregation ≡ plan.aggregation
same_aggregation stamp actor code plan running =
    let (step, found) = at-find plan.current_step_index plan.children running.at_work in
    ap
      (λ active.
        without_child active plan.aggregation (canceled_aggregation stamp code plan.aggregation))
      found

-- A running plan that is canceled, by the user or by its expiry, is over: its child at work is
-- canceled, and its phase, steps and artifacts pass the check of their relations.
pub cancel_plan-IsEnded :
    (stamp : Stamp) (actor : AuditActor) (code : String) (plan : DelegationPlan)
    → IsRunning plan
    → (new : DelegationPlan) × (cancel_plan stamp actor code plan ≡ ok new)
      × (new.phase ≡ canceled)
      × IsEnded new
unfolding cancel_plan phase_ok
cancel_plan-IsEnded stamp actor code plan running =
    let small = room_small (length plan.audit) (left plan.children) running.room in
    let at =
      at-modify_first canceled f plan.current_step_index plan.children (λ s. (refl, refl))
        running.at_work in
    let new = canceled_plan stamp actor code plan in
    let sound =
      IsSound-modify_first plan new is_working f refl refl
        (same_aggregation stamp actor code plan running) (λ s. (refl, refl, refl)) working_open
        running.sound in
    let target =
      at-is_only_target canceled plan.current_step_index new.children _ refl refl
        (rw sound.not_begun refl) at in
    (
      new,
      append_audit_room stamp _ _ (ground arith),
      refl,
      (tt, at-relations new canceled sound refl refl refl at target),
    )
  where
    f : ChildStep → ChildStep
    f = ended_step stamp canceled code

at-no_target :
    (state other : StepState) (i : ℕ) (steps : List ChildStep) (others : List DelegationStep)
    → (pending == other) ≡ false
    → (completed == other) ≡ false
    → (state == other) ≡ false
    → in_state other others ≡ []
    → At state i steps
    → in_state other (map child_execution steps ++ others) ≡ []
at-no_target state other i [] others p c n o h = elim h [ ]
at-no_target state other i (step ∷ steps) others p c n o (inl (s, j, rest)) =
    rw s (rw n (pending-in_state other steps others p o rest))
at-no_target state other i (step ∷ steps) others p c n o (inr (d, h)) =
    rw d (rw c (at-no_target state other i steps others p c n o h))

-- What a valid plan satisfies last.
valid_relations :
    (parse : String → Option ℕ) (plan : DelegationPlan)
    → validate_plan parse plan ≡ ok tt
    → validate_state_relations plan ≡ ok tt
unfolding validate_plan
valid_relations parse plan run =
    (>>-eq-ok (validate_fields parse plan) (validate_state_relations plan) run).1

valid_phase :
    (plan : DelegationPlan)
    → validate_state_relations plan ≡ ok tt
    → phase_ok plan.phase plan ≡ true
unfolding validate_state_relations
valid_phase plan run =
    let order = >>-eq-ok (check_order false plan.children) _ run in
    let agree =
      fail_if->>-eq-ok (not (all (step_artifacts_ok plan.artifacts) plan.children)) _ _ order.1 in
    let published =
      fail_if->>-eq-ok (not (final_provenance_ok plan.artifacts plan.aggregation)) _ _ agree.1 in
    let phase = fail_if-eq-ok (not (phase_ok plan.phase plan)) _ published.1 in ground arith

refused_phase :
    (parse : String → Option ℕ) (plan : DelegationPlan)
    → phase_ok plan.phase plan ≡ false
    → validate_plan parse plan ≢ ok tt
refused_phase parse plan h run =
    let phase = valid_phase plan (valid_relations parse plan run) in clash (sym h ∙ phase)
  where
    clash : false ≡ true → ⊥
    clash e = cc

-- When the execution of the child at work ends canceled, without the task being canceled, the step is
-- canceled but the phase of the plan is failed, for which the validation demands one failed step: the
-- plan that the stage makes is refused, whatever the plan was.
pub finish_stage-canceled :
    (parse : String → Option ℕ) (stamp : Stamp) (execution code : String) (plan : DelegationPlan)
    (step : ChildStep)
    → IsRunning plan
    → IsAtWork execution plan step
    → (new : DelegationPlan) × (finish_stage parse stamp execution (did_not was_canceled code) plan
        ≡ ok new)
      × (validate_plan parse new ≢ ok tt)
unfolding finish_stage phase_ok
finish_stage-canceled parse stamp execution code plan step running (found, work) =
    let run =
      finish_failed_plan stamp execution was_canceled code step plan running (found, work) in
    let at = failed_plan-At stamp execution was_canceled code step plan running (found, work) in
    let sound =
      failed_plan-IsSound stamp execution was_canceled code step plan running (found, work) in
    let new = failed_plan stamp execution was_canceled code step plan in
    let no_target =
      at-no_target canceled failed plan.current_step_index new.children
        (artifact_aggregation new.aggregation ∷ []) refl refl refl (rw sound.not_begun refl) at in
    let no_phase : phase_ok new.phase new ≡ false = rw no_target refl in
    rw found (new, run, refused_phase parse new no_phase)
