-- ===== src/Delegation/Ending.antt =====
-- finishLongHorizonStage as a whole, for a child at work.
use teti_bot.Delegation.Relations.{phase_ok, is_only_target, in_state}
use teti_bot.Delegation.Finish.{
  succeeded, did_not, was_canceled, was_interrupted, has_failed, finish_failed, Failure,
  failure_state, failure_phase, failure_action, finish_stage, Outcome, ran,
}
use mathlib.Core.List.{append-nil}
use teti_bot.Delegation.Runner.{appended, entry_of, ended_step}
use teti_bot.Delegation.{
  state_equality, completed, failed, interrupted, ChildStep, DelegationPlan, host, child_execution,
}
use teti_bot.Base.{
  ℕ, Option, String, ◌≡◌, refl, ap, ◌≢◌, inl, inr, true, false, none, some, [], map, arith, ◌==◌,
  number_equality, text_equality, ok, subst,
}
use teti_bot.Base.{length}
use teti_bot.Delegation.Runner.{Stamp, modify_first, is_working}
use teti_bot.Delegation.Running.{IsRunning, IsSound, left, at-relations, IsSound-modify_first}
use teti_bot.Delegation.Finishing.{Returns, IsAtWork, IsNext, IsEnded, working_open}
use teti_bot.Delegation.Steps.{modify_first-working, At, at-is_only_target, at-modify_first}
use teti_bot.Delegation.Remaining.{append_audit_room}
use teti_bot.Delegation.Recording.{room_small, finish_completed-IsNext}

-- The plan after an execution that ended without an artifact.
abbrev pub failed_plan :
    Stamp → String → Failure → String → ChildStep → DelegationPlan → DelegationPlan
failed_plan stamp execution failure code step plan =
    appended stamp (entry_of (failure_action failure) host (some step.step_id) none (some code))
      (record plan {
        children =
            modify_first (ran execution) (ended_step stamp (failure_state failure) code)
              plan.children;
        phase = failure_phase failure;
      })

failure_open : (failure : Failure) → (failure_state failure == completed) ≡ false
failure_open was_interrupted = refl
failure_open was_canceled = refl
failure_open has_failed = refl

module _ (stamp : Stamp) (execution : String) (failure : Failure) (code : String) (step : ChildStep)
    (plan : DelegationPlan) (running : IsRunning plan) (work : IsAtWork execution plan step) where
  failed_same :
      modify_first (ran execution) (ended_step stamp (failure_state failure) code) plan.children
      ≡ modify_first is_working (ended_step stamp (failure_state failure) code) plan.children
  failed_same =
      let (found, at_work) = work in
      let (same, first) =
        modify_first-working (ran execution) (ended_step stamp (failure_state failure) code)
          plan.current_step_index plan.children running.at_work found at_work in
      same

  pub failed_plan-IsSound : IsSound (failed_plan stamp execution failure code step plan)
  failed_plan-IsSound =
      IsSound-modify_first plan (failed_plan stamp execution failure code step plan) is_working
        (ended_step stamp (failure_state failure) code) failed_same refl refl
        (λ s. (refl, refl, failure_open failure)) working_open running.sound

  pub failed_plan-At :
      At
        (failure_state failure)
        plan.current_step_index
        (failed_plan stamp execution failure code step plan).children
  failed_plan-At = rw failed_same (
      at-modify_first (failure_state failure) (ended_step stamp (failure_state failure) code)
        plan.current_step_index plan.children (λ s. (refl, refl)) running.at_work)

  pub finish_failed_plan :
      finish_failed stamp execution failure code step plan
      ≡ ok (failed_plan stamp execution failure code step plan)
  unfolding finish_failed
  finish_failed_plan =
      let small = room_small (length plan.audit) (left plan.children) running.room in
      append_audit_room stamp _ _ (ground arith)

failed_plan-IsEnded :
    (stamp : Stamp) (execution : String) (failure : Failure) (code : String) (step : ChildStep)
    (plan : DelegationPlan)
    → IsRunning plan
    → IsAtWork execution plan step
    → failure ≢ was_canceled
    → IsEnded (failed_plan stamp execution failure code step plan)
unfolding phase_ok
failed_plan-IsEnded stamp execution was_interrupted code step plan running work u =
    let sound = failed_plan-IsSound stamp execution was_interrupted code step plan running work in
    let at = failed_plan-At stamp execution was_interrupted code step plan running work in
    let children = (failed_plan stamp execution was_interrupted code step plan).children in
    let whole = append-nil (map child_execution children) in
    let target =
      at-is_only_target interrupted plan.current_step_index children [] refl refl refl at in
    let phase =
      subst (λ l. is_only_target plan.current_step_index (in_state interrupted l) ≡ true) whole
        target in
    (tt, at-relations _ interrupted sound refl refl refl at phase)
failed_plan-IsEnded stamp execution has_failed code step plan running work u =
    let sound = failed_plan-IsSound stamp execution has_failed code step plan running work in
    let at = failed_plan-At stamp execution has_failed code step plan running work in
    (
      tt,
      at-relations _ failed sound refl refl refl at (
          at-is_only_target failed plan.current_step_index _ _ refl refl
            (rw running.sound.not_begun refl) at),
    )
failed_plan-IsEnded stamp execution was_canceled code step plan running work u = elim (u refl) [ ]

-- When the execution of the child at work ends with a success, with a failure or by an interruption,
-- but not canceled, the stage makes a plan that either goes on with its next child at work and fewer steps
-- left, or is over, its phase, steps and artifacts passing the check of their relations. The stage
-- returns that plan, unless the validation refuses fields of it other than these relations, which is the
-- only fault it can have.
pub finish_stage-IsNext :
    (parse : String → Option ℕ) (stamp : Stamp) (execution : String) (outcome : Outcome)
    (plan : DelegationPlan) (step : ChildStep)
    → IsRunning plan
    → IsAtWork execution plan step
    → ((code : String) → outcome ≢ did_not was_canceled code)
    → (new : DelegationPlan) × Returns parse (finish_stage parse stamp execution outcome plan) new
      × IsNext plan new
unfolding finish_stage
finish_stage-IsNext parse stamp execution (succeeded artifact launch final_artifact revision) plan
      step running (found, work) u =
    rw found (
      finish_completed-IsNext parse stamp execution artifact launch final_artifact revision step
        plan running (found, work))
finish_stage-IsNext parse stamp execution (did_not failure code) plan step running (found, work) u =
    let run = finish_failed_plan stamp execution failure code step plan running (found, work) in
    let ended =
      failed_plan-IsEnded stamp execution failure code step plan running (found, work)
        (λ e. u code (ap (λ f. did_not f code) e)) in
    rw found (failed_plan stamp execution failure code step plan, inl run, inr ended)
