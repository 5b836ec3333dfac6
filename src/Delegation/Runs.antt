-- ===== src/Delegation/Runs.antt =====
-- Whole runs of a plan: what the service does to it from its approval on, as a step relation.
use teti_bot.Delegation.Relations.{validate_state_relations}
use teti_bot.Delegation.Finish.{did_not, was_canceled, Outcome, finish_stage}
use teti_bot.Delegation.Control.{expire_plan, approve_delegation, cancel_plan, is_over}
use teti_bot.Delegation.Runner.{Stamp, Launch}
use teti_bot.Delegation.{
  state_equality, completed, working, ChildStep, DelegationPlan, AuditActor, host,
}
use teti_bot.Base.{
  ℕ, zero, suc, ◌≤◌, String, ◌≡◌, refl, ap, ◌≢◌, ◌⊎◌, inl, inr, false, Option, List, [], ◌∷◌, arith,
  number_equality, text_equality, if◌then◌else◌, ok, subst,
}
use teti_bot.Base.{length, Result, ok_injective, >>-eq-ok, sym, ◌∙◌}
use teti_bot.Delegation.{DelegationError}
use teti_bot.Delegation.Validation.{validate_fields}
use teti_bot.Delegation.Planner.{PlanCreationInput}
use teti_bot.Delegation.Running.{IsRunning, left, IsRunning-relations}
use teti_bot.Delegation.Steps.{At, has_state-false, has_state-true}
use teti_bot.Delegation.Finishing.{Returns, IsEnded, IsAtWork, IsNext, IsOver}
use teti_bot.Delegation.Canceling.{cancel_plan-IsEnded}
use teti_bot.Delegation.Ending.{finish_stage-IsNext}
use teti_bot.Delegation.Created.{approve_delegation-IsRunning}

-- One event, while the plan is working: the execution of the child at work ends, but for a child that was
-- canceled, or the plan is canceled by the user or expires.
pub data Event (parse : String → Option ℕ) (plan new : DelegationPlan) : Type 0 where
  finishes :
      (stamp : Stamp) (execution : String) (outcome : Outcome) (step : ChildStep)
      → IsAtWork execution plan step
      → ((code : String) → outcome ≢ did_not was_canceled code)
      → finish_stage parse stamp execution outcome plan ≡ ok new
      → Event parse plan new
  cancels :
      (stamp : Stamp) (actor : AuditActor) (code : String)
      → cancel_plan stamp actor code plan ≡ ok new
      → Event parse plan new
  expires : (stamp : Stamp) → expire_plan stamp plan ≡ ok new → Event parse plan new

-- Some number of events.
pub data Run (parse : String → Option ℕ) : ℕ → DelegationPlan → DelegationPlan → Type 0 where
  no_event : {plan : DelegationPlan} → Run parse zero plan plan
  event_then :
      {n : ℕ} {plan mid new : DelegationPlan}
      → plan.phase ≡ working
      → Event parse plan mid
      → Run parse n mid new
      → Run parse (suc n) plan new

-- What a stage returns is the plan that it made.
Returns-same :
    (parse : String → Option ℕ) (r : Result DelegationError DelegationPlan)
    (made new : DelegationPlan)
    → Returns parse r made
    → r ≡ ok new
    → made ≡ new
Returns-same parse r made new (inl e) run = cc
Returns-same parse r made new (inr e) run =
    ok_injective (>>-eq-ok (validate_fields parse made) (ok made) (sym e ∙ run)).1

canceled-IsNext :
    (stamp : Stamp) (actor : AuditActor) (code : String) (plan new : DelegationPlan)
    → IsRunning plan
    → cancel_plan stamp actor code plan ≡ ok new
    → IsNext plan new
canceled-IsNext stamp actor code plan new running run =
    let (made, run', phase, ended) = cancel_plan-IsEnded stamp actor code plan running in
    let same : made ≡ new = cc in inr (subst IsEnded same ended)

Event-IsNext :
    (parse : String → Option ℕ) (plan new : DelegationPlan)
    → IsRunning plan
    → Event parse plan new
    → IsNext plan new
unfolding expire_plan
Event-IsNext parse plan new running (finishes stamp execution outcome step at_work other run) =
    let (made, run', going) =
      finish_stage-IsNext parse stamp execution outcome plan step running at_work other in
    subst (IsNext plan) (Returns-same parse _ made new run' run) going
Event-IsNext parse plan new running (cancels stamp actor code run) =
    canceled-IsNext stamp actor code plan new running run
Event-IsNext parse plan new running (expires stamp run) =
    let open_phase : is_over plan.phase ≡ false = ap is_over running.phase_working in
    let canceled_run : cancel_plan stamp host "TASK_EXPIRED" plan ≡ ok new =
      subst (λ b. (if b then ok plan else cancel_plan stamp host "TASK_EXPIRED" plan) ≡ ok new)
        open_phase run in
    canceled-IsNext stamp host "TASK_EXPIRED" plan new running canceled_run

at_left : (i : ℕ) (steps : List ChildStep) → At working i steps → 1 ≤ left steps
at_left i [] h = elim h [ ]
at_left i (step ∷ steps) (inl (s, j, rest)) =
    let open_step = has_state-false completed working step refl s in rw open_step (ground arith)
at_left i (step ∷ steps) (inr (c, h)) =
    let done = has_state-true completed step c in rw done (at_left i steps h)

-- A working plan that is over is none.
not_over : (plan : DelegationPlan) → IsEnded plan → plan.phase ≢ working
not_over plan (over, _) h = subst IsOver h over

-- Nothing happens to a plan that is over.
IsEnded-Run :
    (parse : String → Option ℕ) (m : ℕ) (mid new : DelegationPlan) (bound : ℕ)
    → Run parse m mid new
    → IsEnded mid
    → 1 ≤ bound
    → (IsRunning new ⊎ IsEnded new) × (suc m ≤ bound)
IsEnded-Run parse zero mid new bound no_event ended h = (inr ended, h)
IsEnded-Run parse (suc m) mid new bound (event_then phase event rest) ended h =
    elim (not_over mid ended phase) [ ]

run_lem :
    (parse : String → Option ℕ) (n : ℕ) (plan new : DelegationPlan)
    → IsRunning plan
    → Run parse n plan new
    → (IsRunning new ⊎ IsEnded new) × (n ≤ left plan.children)
run_lem parse zero plan new running no_event = (inl running, ground arith)
run_lem parse (suc n) plan new running (event_then {mid = mid} phase event rest) =
    elim (Event-IsNext parse plan mid running event) [
      | inl (going, fewer) ↦
          let (state, bound) = run_lem parse n mid new going rest in (state, ground arith)
      | inr ended ↦
          IsEnded-Run parse n mid new (left plan.children) rest ended
            (at_left plan.current_step_index plan.children running.at_work)
    ]

-- An approved plan goes through any number of events while it works: a stage of the child at work that
-- returns, where the child was not canceled, the cancelling of the plan, and its expiry. After every event
-- its phase, steps and artifacts pass the check of their relations, and no more such events happen to it
-- than it has targets.
pub Run-validate_state_relations :
    (parse : String → Option ℕ) (stamp : Stamp) (input : PlanCreationInput) (launch : Launch)
    (plan new : DelegationPlan) (n : ℕ)
    → approve_delegation parse stamp input launch ≡ ok plan
    → Run parse n plan new
    → (validate_state_relations new ≡ ok tt) × (n ≤ length input.targets)
Run-validate_state_relations parse stamp input launch plan new n approved run =
    let (running, count, _, _) =
      approve_delegation-IsRunning parse stamp input launch plan approved in
    let (state, bound) = run_lem parse n plan new running run in
    (relations state, subst (λ k. n ≤ k) count bound)
  where
    relations : IsRunning new ⊎ IsEnded new → validate_state_relations new ≡ ok tt
    relations (inl running) = IsRunning-relations new running
    relations (inr (over, valid)) = valid
