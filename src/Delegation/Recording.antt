-- ===== src/Delegation/Recording.antt =====
-- A child that succeeded: its artifact is recorded and the next child started.
use teti_bot.Delegation.Relations.{step_artifacts_ok}
use teti_bot.Delegation.Finish.{recorded_plan, continue_with, finish_completed, ran}
use teti_bot.Delegation.Runner.{appended, entry_of}
use teti_bot.Delegation.{
  child_agent, state_equality, completed, intermediate, ChildStep, DelegationPlan,
  ArtifactProvenance, artifact_recorded, child, step_completed, host,
}
use teti_bot.Base.{
  ℕ, suc, ◌+◌, ◌≤◌, ◌<◌, String, ◌≡◌, refl, ap, ◌∙◌, ◌⊎◌, inl, inr, true, false, Option, none, some,
  [], ◌∷◌, ◌++◌, arith, ◌==◌, number_equality, text_equality, Result, ok, err, ◌*◌,
}
use teti_bot.Base.{all, length, find}
use teti_bot.Delegation.Runner.{
  Stamp, Launch, is_pending, modify_first, start_or_fail, is_working, set_revision, launched,
}
use teti_bot.Delegation.Relations.{validate_state_relations}
use teti_bot.Delegation.{DelegationError}
use teti_bot.Base.{◌>>◌}
use teti_bot.Delegation.Validation.{validate_plan, validate_fields}
use teti_bot.Delegation.Running.{IsRunning, IsSound, left}
use teti_bot.Delegation.Finishing.{
  Returns, IsBetween, IsAtWork, IsNext, IsEnded, complete_delegation-IsEnded, start_step-IsRunning,
  fail_start-IsEnded,
}
use teti_bot.Delegation.Steps.{Between, modify_first-working, modify_first-Between}
use teti_bot.Delegation.Provenance.{
  ids_of, ids_of-modify_first, find_apart, completed_agrees, IsUnpublished-still,
}
use teti_bot.Delegation.Remaining.{left_completed, append_audit_room, length-append_one}

-- The plan with the artifact of the child, between this child and the next.
record_artifact :
    (stamp : Stamp) (execution artifact : String) (revision : ℕ) (step : ChildStep)
    (plan : DelegationPlan)
    → IsRunning plan
    → IsAtWork execution plan step
    → IsSound (recorded_plan stamp execution artifact revision step plan)
      × Between (recorded_plan stamp execution artifact revision step plan).children
      × (suc (left (recorded_plan stamp execution artifact revision step plan).children)
          ≡ left plan.children)
unfolding recorded_plan
record_artifact stamp execution artifact revision step plan running (found, at_work) = (
  record {
    agreeing = rw same.0 agrees;
    unpublished =
        IsUnpublished-still plan.artifacts entry plan.aggregation apart running.sound.unpublished;
    not_begun = running.sound.not_begun;
    distinct = rw ids running.sound.distinct;
    apart = rw ids running.sound.apart;
  },
  rw same.0
      (modify_first-Between f plan.current_step_index plan.children (λ s. refl) running.at_work),
  rw same.0 (left_completed f plan.current_step_index plan.children (λ s. refl) running.at_work),
)
  where
    f : ChildStep → ChildStep
    f s = record s {
      state = completed;
      completed_at = some stamp.now;
      artifact_ids = artifact ∷ [];
    }

    entry : ArtifactProvenance
    entry = record {
      artifact_id = artifact;
      step_id = step.step_id;
      producer = child_agent step.child_agent_id step.connector_id step.resource_binding_id;
      workspace_revision = revision;
      role = intermediate;
      created_at = stamp.now;
    }

    same :
        (modify_first (ran execution) f plan.children ≡ modify_first is_working f plan.children)
        × (find is_working plan.children ≡ some step)
    same =
        modify_first-working (ran execution) f plan.current_step_index plan.children running.at_work
          found at_work

    ids : ids_of (modify_first (ran execution) f plan.children) ≡ ids_of plan.children
    ids = ids_of-modify_first (ran execution) f plan.children (λ s. refl)

    apart : (step.step_id == plan.aggregation.step_id) ≡ false
    apart =
        find_apart (ran execution) plan.children plan.aggregation.step_id found running.sound.apart

    agrees :
        all
          (step_artifacts_ok (plan.artifacts ++ (entry ∷ [])))
          (modify_first is_working f plan.children)
        ≡ true
    agrees =
        completed_agrees plan.artifacts entry f plan.current_step_index plan.children
          (λ s. (refl, refl, refl)) running.at_work same.1 refl running.sound.distinct
          running.sound.agreeing

-- A plan whose relations hold can be refused for its fields alone.
validate_plan-fields :
    (parse : String → Option ℕ) (plan : DelegationPlan)
    → validate_state_relations plan ≡ ok tt
    → (validate_plan parse plan >> ok plan) ≡ (validate_fields parse plan >> ok plan)
unfolding validate_plan
validate_plan-fields parse plan hold = rw hold (two (validate_fields parse plan))
  where
    two : (r : Result DelegationError (Unit {0})) → ((r >> ok tt) >> ok plan) ≡ (r >> ok plan)
    two (ok _) = refl
    two (err e) = refl

-- The next child, or the end.
continue_with-IsNext :
    (parse : String → Option ℕ) (stamp : Stamp) (launch : Launch) (final_artifact : String)
    (revision : ℕ) (plan : DelegationPlan) (next : Option ChildStep)
    → IsBetween plan
    → find is_pending plan.children ≡ next
    → (new : DelegationPlan) × Returns parse
        (continue_with parse stamp launch final_artifact revision plan next)
        new
      × ((IsRunning new × (left new.children ≡ left plan.children)) ⊎ IsEnded new)
continue_with-IsNext parse stamp launch final_artifact revision plan none b found =
    let (new, run, ended) =
      complete_delegation-IsEnded parse stamp final_artifact revision plan b found in
    (new, inr (run ∙ validate_plan-fields parse new ended.1), inr ended)
continue_with-IsNext parse stamp launch final_artifact revision plan (some step) b found =
    start (launched launch step)
  where
    start :
        (outcome : Result String String)
        → (new : DelegationPlan) × Returns parse
            (start_or_fail parse stamp launch step plan outcome)
            new
          × ((IsRunning new × (left new.children ≡ left plan.children)) ⊎ IsEnded new)
    start (ok execution) =
        let (new, run, running, same, _) =
          start_step-IsRunning stamp (set_revision launch step) execution step plan b found in
        (new, inl run, inl (running, same))
    start (err code) =
        let (new, run, ended) =
          fail_start-IsEnded stamp (set_revision launch step) code step plan b found in
        (new, inr (rw run (validate_plan-fields parse new ended.1)), inr ended)

room_two :
    (events steps before : ℕ)
    → suc steps ≡ before
    → events + 3 * before ≤ 15
    → suc (suc events) + 3 * steps ≤ 14
room_two events steps before e h = omega arith

pub room_small : (events steps : ℕ) → events + 3 * steps ≤ 15 → events ≤ 62
room_small events steps h = omega arith

fewer_steps : (new between before : ℕ) → new ≡ between → suc between ≡ before → new < before
fewer_steps new between before e h = omega arith

IsNext-of :
    (plan new : DelegationPlan) (steps : ℕ)
    → suc steps ≡ left plan.children
    → (IsRunning new × (left new.children ≡ steps)) ⊎ IsEnded new
    → IsNext plan new
IsNext-of plan new steps h (inl (running, same)) =
    inl (running, fewer_steps (left new.children) steps (left plan.children) same h)
IsNext-of plan new steps h (inr ended) = inr ended

pub finish_completed-IsNext :
    (parse : String → Option ℕ) (stamp : Stamp) (execution artifact : String) (launch : Launch)
    (final_artifact : String) (revision : ℕ) (step : ChildStep) (plan : DelegationPlan)
    → IsRunning plan
    → IsAtWork execution plan step
    → (new : DelegationPlan) × Returns parse
        (finish_completed parse stamp execution artifact launch final_artifact revision step plan)
        new
      × IsNext plan new
unfolding finish_completed recorded_plan
finish_completed-IsNext parse stamp execution artifact launch final_artifact revision step plan
      running work =
    let (sound, between, fewer) =
      record_artifact stamp execution artifact revision step plan running work in
    let small = room_small (length plan.audit) (left plan.children) running.room in
    let events : length done.audit ≡ suc (suc (length plan.audit)) =
      length-append_one first.audit _ ∙ ap suc (length-append_one plan.audit _) in
    let room : length done.audit + 3 * left recorded.children ≤ 14 = rw events (
      room_two (length plan.audit) (left recorded.children) (left plan.children) fewer
        running.room) in
    let small₁ : length recorded.audit ≤ 63 = ground arith in
    let one_more : length first.audit ≡ suc (length plan.audit) = length-append_one plan.audit _ in
    let small₂ : length first.audit ≤ 63 = rw one_more (ground arith) in
    let is_between : IsBetween done = record {
      sound = record {
        agreeing = sound.agreeing;
        unpublished = sound.unpublished;
        not_begun = sound.not_begun;
        distinct = sound.distinct;
        apart = sound.apart;
      };
      between = between;
      room = room;
    } in
    let (new, run, next) =
      continue_with-IsNext parse stamp launch final_artifact revision done
        (find is_pending done.children) is_between refl in
    (
      new,
      rw (append_audit_room stamp _ recorded small₁)
          (rw (append_audit_room stamp _ first small₂) run),
      IsNext-of plan new (left recorded.children) fewer next,
    )
  where
    id : Option String
    id = some step.step_id

    recorded : DelegationPlan
    recorded = recorded_plan stamp execution artifact revision step plan

    first : DelegationPlan
    first = appended stamp (entry_of artifact_recorded child id (some artifact) none) recorded

    done : DelegationPlan
    done = appended stamp (entry_of step_completed host id none none) first
