-- ===== src/Delegation/Finishing.antt =====
-- finishLongHorizonStage on a running plan: every branch, from the end of the child's execution to the
-- plan that is stored.
use teti_bot.Delegation.Relations.{has_state, validate_state_relations, phase_ok}
use teti_bot.Delegation.Finish.{ran, complete_delegation, aggregating_plan, published_plan}
use teti_bot.Delegation.{
  teti_host, state_equality, completed, working, failed, canceled, interrupted, PlanPhase,
  aggregating, pending_approval, final, ChildStep, DelegationPlan, step_failed, host,
  ArtifactProvenance, aggregation_started, artifact_recorded, plan_completed,
}
use teti_bot.Base.{
  ℕ, suc, ◌+◌, ◌≤◌, ◌<◌, String, ◌≡◌, refl, ◌⊎◌, true, false, Option, none, some, arith,
  number_equality, text_equality, ok, All, ◌*◌, ==_refl,
}
use teti_bot.Base.{length, find}
use teti_bot.Delegation.Validation.{validate_plan, validate_fields}
use teti_bot.Delegation.{DelegationError}
use teti_bot.Base.{Result, ◌>>◌}
use teti_bot.Delegation.Runner.{
  start_step, Stamp, is_pending, is_working, started_step, modify_first, appended, fail_start,
  ended_step, entry_of,
}
use teti_bot.Delegation.Running.{
  IsRunning, IsSound, left, IsSound-modify_first, at-relations, relations_hold,
}
use teti_bot.Delegation.Steps.{
  Between, between-at, IsCompleted, Between-IsCompleted, At, at-is_only_target,
  completed-is_ordered, completed_all,
}
use teti_bot.Delegation.Remaining.{left-modify_first, append_audit_room, length-append_one}
use teti_bot.Delegation.Provenance.{final_agrees, published_ok}

abbrev pub IsOver : PlanPhase → Type 0
IsOver pending_approval = ⊥
IsOver working = ⊥
IsOver aggregating = ⊥
IsOver completed = Unit
IsOver failed = Unit
IsOver canceled = Unit
IsOver interrupted = Unit

-- The plan is over, and consistent.
abbrev pub IsEnded : DelegationPlan → Type 0
IsEnded plan = IsOver plan.phase × (validate_state_relations plan ≡ ok tt)

-- The plan goes on with fewer steps left, or it is over.
abbrev pub IsNext : (plan new : DelegationPlan) → Type 0
IsNext plan new = (IsRunning new × (left new.children < left plan.children)) ⊎ IsEnded new

-- The new plan is returned, or whatever the validation of its fields says of it.
abbrev pub Returns :
    (parse : String → Option ℕ) → Result DelegationError DelegationPlan → DelegationPlan → Type 0
Returns parse r new = (r ≡ ok new) ⊎ (r ≡ (validate_fields parse new >> ok new))

-- The execution is that of a child of the plan that is at work.
abbrev pub IsAtWork : String → DelegationPlan → ChildStep → Type 0
IsAtWork execution plan step =
    (find (ran execution) plan.children ≡ some step) × (step.state ≡ working)

-- Between two children: the plan after a child's artifact is recorded.
pub record IsBetween (plan : DelegationPlan) : Type 0 where
  pub sound : IsSound plan
  pub between : Between plan.children
  pub room : length plan.audit + 3 * left plan.children ≤ 14

pub pending_open : (s : ChildStep) → is_pending s ≡ true → has_state completed s ≡ false
pending_open s h = ground arith

pub working_open : (s : ChildStep) → is_working s ≡ true → has_state completed s ≡ false
working_open s h = ground arith

room_one : (events steps : ℕ) → events + 3 * steps ≤ 14 → suc events + 3 * steps ≤ 15
room_one events steps h = omega arith

-- A child that is started is at work.
pub start_step-IsRunning :
    (stamp : Stamp) (revision : ℕ) (execution : String) (step : ChildStep) (plan : DelegationPlan)
    → IsBetween plan
    → find is_pending plan.children ≡ some step
    → (new : DelegationPlan) × (start_step stamp revision execution step plan ≡ ok new)
      × IsRunning new
      × (left new.children ≡ left plan.children)
      × (new.children
          ≡ modify_first is_pending (started_step stamp revision execution) plan.children)
unfolding start_step
start_step-IsRunning stamp revision execution step plan b found = (
  appended stamp _ begun,
  append_audit_room stamp _ begun room,
  record {
    sound =
        IsSound-modify_first plan (appended stamp _ begun) is_pending f refl refl refl
          (λ s. (refl, refl, refl)) pending_open b.sound;
    phase_working = refl;
    at_work = between-at working f plan.children (λ s. (refl, refl)) b.between found;
    room =
        rw (length-append_one plan.audit _)
          (rw same (room_one (length plan.audit) (left plan.children) b.room));
  },
  same,
  refl,
)
  where
    f : ChildStep → ChildStep
    f = started_step stamp revision execution

    begun : DelegationPlan
    begun = record plan {
      children = modify_first is_pending (started_step stamp revision execution) plan.children;
      phase = working;
      current_step_index = step.step_index;
    }

    same :
        left (modify_first is_pending (started_step stamp revision execution) plan.children)
        ≡ left plan.children
    same =
        left-modify_first is_pending (started_step stamp revision execution) plan.children
          (λ s. refl) pending_open

    room : length plan.audit ≤ 63
    room = let r = b.room in ground arith

-- A child that cannot be started has failed, and so has its plan.
pub fail_start-IsEnded :
    (stamp : Stamp) (revision : ℕ) (code : String) (step : ChildStep) (plan : DelegationPlan)
    → IsBetween plan
    → find is_pending plan.children ≡ some step
    → (new : DelegationPlan) × (fail_start stamp revision code step plan ≡ ok new) × IsEnded new
unfolding fail_start phase_ok
fail_start-IsEnded stamp revision code step plan b found = (
  new,
  append_audit_room stamp _ stopped room,
  (
    tt,
    at-relations new failed sound refl refl refl at (
        at-is_only_target failed step.step_index new.children _ refl refl (rw sound.not_begun refl)
          at),
  ),
)
  where
    f : ChildStep → ChildStep
    f s = record (ended_step stamp failed code s) { workspace_revision = revision }

    stopped : DelegationPlan
    stopped = record plan {
      children =
          modify_first is_pending
            (λ s. record (ended_step stamp failed code s) { workspace_revision = revision })
            plan.children;
      phase = failed;
      current_step_index = step.step_index;
    }

    new : DelegationPlan
    new = appended stamp (entry_of step_failed host (some step.step_id) none (some code)) stopped

    sound : IsSound new
    sound =
        IsSound-modify_first plan new is_pending f refl refl refl (λ s. (refl, refl, refl))
          pending_open b.sound

    at : At failed step.step_index new.children
    at = between-at failed f plan.children (λ s. (refl, refl)) b.between found

    room : length plan.audit ≤ 63
    room = let r = b.room in ground arith

-- With no child left the aggregation completes the plan: the final artifact is published.
pub complete_delegation-IsEnded :
    (parse : String → Option ℕ) (stamp : Stamp) (artifact : String) (revision : ℕ)
    (plan : DelegationPlan)
    → IsBetween plan
    → find is_pending plan.children ≡ none
    → (new : DelegationPlan) × (complete_delegation parse stamp artifact revision plan
        ≡ (validate_plan parse new >> ok new))
      × IsEnded new
unfolding complete_delegation aggregating_plan published_plan phase_ok
complete_delegation-IsEnded parse stamp artifact revision plan b found = (
  new,
  rw (append_audit_room stamp _ (aggregating_plan stamp plan) room) (
      rw (append_audit_room stamp _ (published_plan stamp artifact revision first) room₁)
        (rw (append_audit_room stamp _ second room₂) refl)),
  (
    tt,
    relations_hold new (completed-is_ordered plan.children all_done)
        (final_agrees plan.artifacts entry plan.children b.sound.apart b.sound.agreeing)
        (published_ok plan.artifacts entry new.aggregation plan.aggregation refl refl refl refl
          b.sound.unpublished)
        (rw (completed_all plan.children all_done) (==_refl plan.aggregation.step_index)),
  ),
)
  where
    id : Option String
    id = some plan.aggregation.step_id

    all_done : All IsCompleted plan.children
    all_done = Between-IsCompleted plan.children b.between found

    entry : ArtifactProvenance
    entry = record {
      artifact_id = artifact;
      step_id = plan.aggregation.step_id;
      producer = teti_host;
      workspace_revision = revision;
      role = final;
      created_at = stamp.now;
    }

    first : DelegationPlan
    first =
        appended stamp (entry_of aggregation_started host id none none)
          (aggregating_plan stamp plan)

    second : DelegationPlan
    second =
        appended stamp (entry_of artifact_recorded host id (some artifact) none)
          (published_plan stamp artifact revision first)

    new : DelegationPlan
    new = appended stamp (entry_of plan_completed host id (some artifact) none) second

    room : length plan.audit ≤ 63
    room = let r = b.room in ground arith

    room₁ : length first.audit ≤ 63
    room₁ = rw (length-append_one plan.audit _) (let r = b.room in ground arith)

    room₂ : length second.audit ≤ 63
    room₂ =
        rw (length-append_one first.audit _)
          (rw (length-append_one plan.audit _) (let r = b.room in ground arith))
