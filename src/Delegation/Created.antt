-- ===== src/Delegation/Created.antt =====
-- The plan that createDeterministicDelegationPlan makes, and its approval.
use teti_bot.Delegation.Control.{approve_delegation, start_first, starting}
use teti_bot.Delegation.{
  state_equality, pending, ChildStep, DelegationPlan, plan_approved, local_user, step_limit,
}
use teti_bot.Base.{
  ℕ, ◌+◌, ◌≤◌, String, ◌≡◌, refl, sym, ap, ◌∙◌, inl, inr, Bool, true, false, ◌||◌, Option, none,
  some, List, [], ◌∷◌, arith, ◌==◌, number_equality, text_equality, Result, ok, err, All,
  Bool-cases, fail_if->>-eq-ok, subst, ◌*◌, All-map,
}
use teti_bot.Base.{length, find, ltb, >>-eq-ok, >>=-eq-ok}
use teti_bot.Workspace.{WorkspaceAccess, access_equality}
use teti_bot.Delegation.Validation.{is_workspace_access_subset, validate_plan}
use teti_bot.Delegation.Planner.{
  planned_steps, PlanCreationInput, planned, create_deterministic_plan,
}
use teti_bot.Delegation.Provenance.{IsUnpublished}
use teti_bot.Delegation.Steps.{pending-Between, has_state-true}
use teti_bot.Delegation.Runner.{
  Stamp, append_audit, Launch, appended, entry_of, is_pending, modify_first, launched, set_revision,
  started_step,
}
use teti_bot.Delegation.Running.{left, IsRunning}
use teti_bot.Delegation.Finishing.{IsBetween, start_step-IsRunning}
use teti_bot.Delegation.Planned.{IsPlanned, planned_steps-IsPlanned, names_distinct, fresh_agrees}

-- The plan that is approved, before its first child is started.
abbrev approved_plan : Stamp → DelegationPlan → DelegationPlan
approved_plan stamp plan = appended stamp (entry_of plan_approved local_user none none none) plan

planned-IsBetween :
    (stamp : Stamp) (input : PlanCreationInput) (steps : List ChildStep)
    → length input.targets ≤ 4
    → planned_steps input 0 input.targets ≡ ok steps
    → IsBetween (approved_plan stamp (planned input steps))
      × All (IsPlanned input.workspace_access) steps
unfolding planned IsUnpublished
planned-IsBetween stamp input steps few run =
    let (are_planned, ids, count) = planned_steps-IsPlanned input 0 input.targets steps run in
    let (agrees, waiting, remaining) = fresh_agrees input.workspace_access steps are_planned in
    let (distinct, apart) = names_distinct (length input.targets) few in
    (
      record {
        sound = record {
          agreeing = agrees;
          unpublished = (refl, refl);
          not_begun = refl;
          distinct = rw ids distinct;
          apart = rw ids apart;
        };
        between = pending-Between steps waiting;
        room = rw remaining (rw count (room_left (length input.targets) few));
      },
      are_planned,
    )
  where
    room_left : (n : ℕ) → n ≤ 4 → 2 + 3 * n ≤ 14
    room_left n h = omega arith

approved_plan-eq :
    (stamp : Stamp) (input : PlanCreationInput) (steps : List ChildStep)
    → append_audit stamp (entry_of plan_approved local_user none none none) (planned input steps)
      ≡ ok (approved_plan stamp (planned input steps))
unfolding planned append_audit
approved_plan-eq stamp input steps = refl

-- The steps within the access, while they run.
abbrev pub AreWithin : List WorkspaceAccess → List ChildStep → Type 0
AreWithin granted steps =
    All (λ step. is_workspace_access_subset step.workspace_access granted ≡ true) steps

All-modify_first :
    (P : ChildStep → Type 0) (p : ChildStep → Bool) (f : ChildStep → ChildStep)
    (steps : List ChildStep)
    → ((s : ChildStep) → P s → P (f s))
    → All P steps
    → All P (modify_first p f steps)
All-modify_first P p f [] g h = tt
All-modify_first P p f (step ∷ steps) g (here, h) = elim (Bool-cases (p step)) [
  | inl e ↦ rw e (g step here, h)
  | inr e ↦ rw e (here, All-modify_first P p f steps g h)
]

starting-IsRunning :
    (stamp : Stamp) (launch : Launch) (before plan : DelegationPlan) (step : ChildStep)
    (outcome : Result String String) (granted : List WorkspaceAccess)
    → IsBetween before
    → find is_pending before.children ≡ some step
    → AreWithin granted before.children
    → starting stamp launch before step outcome ≡ ok plan
    → IsRunning plan × (left plan.children ≡ left before.children) × AreWithin granted plan.children
starting-IsRunning stamp launch before plan step (err code) granted b found within run = cc
starting-IsRunning stamp launch before plan step (ok execution) granted b found within run =
    let (new, started, running, same, children) =
      start_step-IsRunning stamp (set_revision launch step) execution step before b found in
    let equal : new ≡ plan = cc in
    let kept =
      All-modify_first (λ s. is_workspace_access_subset s.workspace_access granted ≡ true)
        is_pending (started_step stamp (set_revision launch step) execution) before.children
        (λ s h. h) within in
    let new_within : AreWithin granted new.children = rw children kept in
    (
      subst IsRunning equal running,
      ap (λ q. left q.children) (sym equal) ∙ same,
      subst (λ q. AreWithin granted q.children) equal new_within,
    )

created_lem :
    (parse : String → Option ℕ) (input : PlanCreationInput) (fresh : DelegationPlan)
    → create_deterministic_plan parse input ≡ ok fresh
    → (steps : List ChildStep) × (planned_steps input 0 input.targets ≡ ok steps)
      × (length input.targets ≤ 4)
      × (fresh ≡ planned input steps)
unfolding create_deterministic_plan
created_lem parse input fresh created =
    let (few, after_few) =
      fail_if->>-eq-ok (length input.targets == 0 || ltb 4 (length input.targets)) step_limit _
        created in
    let (steps, made, after_made) = >>=-eq-ok (planned_steps input 0 input.targets) _ after_few in
    let (valid, kept) = >>-eq-ok (validate_plan parse (planned input steps)) _ after_made in
    let same : planned input steps ≡ fresh = cc in (steps, made, four few, sym same)
  where
    four :
        (length input.targets == 0 || ltb 4 (length input.targets)) ≡ false
        → length input.targets ≤ 4
    four h = ground arith

first_started :
    (stamp : Stamp) (input : PlanCreationInput) (launch : Launch) (plan : DelegationPlan)
    (steps : List ChildStep)
    → length input.targets ≤ 4
    → planned_steps input 0 input.targets ≡ ok steps
    → start_first stamp launch (approved_plan stamp (planned input steps)) steps ≡ ok plan
    → IsRunning plan
      × (left plan.children ≡ length input.targets)
      × AreWithin input.workspace_access plan.children
unfolding planned
first_started stamp input launch plan [] few made run = cc
first_started stamp input launch plan (step ∷ steps) few made run =
    let (b, are_planned) = planned-IsBetween stamp input (step ∷ steps) few made in
    let (_, ids, count) = planned_steps-IsPlanned input 0 input.targets (step ∷ steps) made in
    let (_, _, remaining) = fresh_agrees input.workspace_access (step ∷ steps) are_planned in
    let waits = has_state-true pending step are_planned.0.waits in
    let found : find is_pending (step ∷ steps) ≡ some step = rw waits refl in
    let within = All-map (λ s p. p.within) (step ∷ steps) are_planned in
    let (running, same, now_within) =
      starting-IsRunning stamp launch _ plan step (launched launch step) input.workspace_access b
        found within run in
    (running, same ∙ remaining ∙ count, now_within)

-- An approval that succeeds starts the plan: its first child is at work, as many steps are left as there
-- are targets, which are four at most, and no step has more access to the workspace than was granted.
pub approve_delegation-IsRunning :
    (parse : String → Option ℕ) (stamp : Stamp) (input : PlanCreationInput) (launch : Launch)
    (plan : DelegationPlan)
    → approve_delegation parse stamp input launch ≡ ok plan
    → IsRunning plan
      × (left plan.children ≡ length input.targets)
      × (length input.targets ≤ 4)
      × AreWithin input.workspace_access plan.children
unfolding approve_delegation planned
approve_delegation-IsRunning parse stamp input launch plan run =
    let (fresh, created, after_created) = >>=-eq-ok (create_deterministic_plan parse input) _ run in
    let (steps, made, few, same) = created_lem parse input fresh created in
    let (approved, appended_ok, after_appended) =
      >>=-eq-ok (append_audit stamp (entry_of plan_approved local_user none none none) fresh) _
        after_created in
    let (valid, started) = >>-eq-ok (validate_plan parse approved) _ after_appended in
    let expected = approved_plan-eq stamp input steps in
    let appended_there =
      ap (λ p. append_audit stamp (entry_of plan_approved local_user none none none) p) same in
    let equal : approved ≡ approved_plan stamp (planned input steps) = cc in
    let started_there : start_first stamp launch (approved_plan stamp (planned input steps)) steps
        ≡ ok plan =
      subst (λ a. start_first stamp launch a a.children ≡ ok plan) equal started in
    let (running, count, within) =
      first_started stamp input launch plan steps few made started_there in
    (running, count, few, within)
