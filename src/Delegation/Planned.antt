-- ===== src/Delegation/Planned.antt =====
-- The steps that createDeterministicDelegationPlan plans.
use teti_bot.Workspace.Validation.{includes, all_distinct}
use teti_bot.Delegation.Relations.{step_artifacts_ok}
use teti_bot.Delegation.{
  state_equality, completed, pending, ChildStep, TargetOption, workspace_scope,
}
use teti_bot.Base.{
  ℕ, zero, suc, ◌≤◌, String, ◌≡◌, refl, ap, inl, inr, Bool, true, false, not, List, [], ◌∷◌, arith,
  ◌==◌, number_equality, text_equality, if◌then◌else◌, ok, All, Bool-cases, ==_refl, numbered,
  decimal_text, fail_if->>-eq-ok, subst,
}
use teti_bot.Base.{all, length, >>=-eq-ok}
use teti_bot.Workspace.{WorkspaceAccess, read, access_equality}
use teti_bot.Delegation.Validation.{step_name, aggregate_name, is_workspace_access_subset}
use teti_bot.Delegation.Planner.{
  delegation_workspace_access, planned_steps, PlanCreationInput, planned_step, is_snapshot,
}
use teti_bot.Delegation.Provenance.{ids_of}
use teti_bot.Delegation.Steps.{IsPending, has_state-false}
use teti_bot.Delegation.Running.{left}

-- A step as it is planned, within the access that was granted.
pub record IsPlanned (granted : List WorkspaceAccess) (step : ChildStep) : Type 0 where
  pub waits : step.state ≡ pending
  pub empty : step.artifact_ids ≡ []
  pub within : is_workspace_access_subset step.workspace_access granted ≡ true

-- `step:` and the numbers after `index`.
pub names : (index count : ℕ) → List String
names index zero = []
names index (suc count) = step_name (suc index) ∷ names (suc index) count

includes-more :
    (more : WorkspaceAccess) (granted requested : List WorkspaceAccess)
    → is_workspace_access_subset requested granted ≡ true
    → is_workspace_access_subset requested (more ∷ granted) ≡ true
includes-more more granted [] h = refl
includes-more more granted (a ∷ as') h =
    let rest = includes-more more granted as' (ground arith) in
    let here : includes granted a ≡ true = ground arith in
    elim (Bool-cases (more == a)) [ inl e ↦ rw e rest | inr e ↦ rw e (rw here rest) ]

granted_all : (granted : List WorkspaceAccess) → is_workspace_access_subset granted granted ≡ true
granted_all [] = refl
granted_all (a ∷ as') = rw (==_refl a) (includes-more a as' as' (granted_all as'))

chosen_within :
    (b : Bool) (granted : List WorkspaceAccess)
    → includes granted read ≡ true
    → is_workspace_access_subset (if not b then read ∷ [] else granted) granted ≡ true
chosen_within true granted reads = granted_all granted
chosen_within false granted reads = rw reads refl

access_within :
    (target : TargetOption) (granted access : List WorkspaceAccess)
    → delegation_workspace_access target granted ≡ ok access
    → is_workspace_access_subset access granted ≡ true
unfolding delegation_workspace_access
access_within target granted access run =
    let (has_read, rest) = fail_if->>-eq-ok (not (includes granted read)) workspace_scope _ run in
    let reads : includes granted read ≡ true = ground arith in
    let chosen = chosen_within (is_snapshot target.workspace_policy) granted reads in
    let same : (if not (is_snapshot target.workspace_policy) then read ∷ [] else granted) ≡ access =
      cc in
    subst (λ l. is_workspace_access_subset l granted ≡ true) same chosen

pub planned_steps-IsPlanned :
    (input : PlanCreationInput) (index : ℕ) (targets : List TargetOption) (steps : List ChildStep)
    → planned_steps input index targets ≡ ok steps
    → All (IsPlanned input.workspace_access) steps
      × (ids_of steps ≡ names index (length targets))
      × (length steps ≡ length targets)
unfolding planned_steps names
planned_steps-IsPlanned input index [] steps run =
    let same : steps ≡ [] = cc in rw same (tt, refl, refl)
planned_steps-IsPlanned input index (target ∷ targets) steps run =
    let (access, allowed, rest) =
      >>=-eq-ok (delegation_workspace_access target input.workspace_access) _ run in
    let (later, planned_later, last) = >>=-eq-ok (planned_steps input (suc index) targets) _ rest in
    let (are_planned, ids, count) =
      planned_steps-IsPlanned input (suc index) targets later planned_later in
    let same : steps ≡ planned_step input index target access ∷ later = cc in
    let here : IsPlanned input.workspace_access (planned_step input index target access) = record {
      waits = refl;
      empty = refl;
      within = access_within target input.workspace_access access allowed;
    } in
    rw same ((here, are_planned), ap (λ l. step_name (suc index) ∷ l) ids, ap suc count)

-- Up to four names are distinct, and none is that of the aggregation.
pub names_distinct :
    (count : ℕ)
    → count ≤ 4
    → (all_distinct (names 0 count) ≡ true) × (includes (names 0 count) aggregate_name ≡ false)
unfolding names numbered decimal_text
names_distinct zero h = (refl, refl)
names_distinct (suc zero) h = (refl, refl)
names_distinct (suc (suc zero)) h = (refl, refl)
names_distinct (suc (suc (suc zero))) h = (refl, refl)
names_distinct (suc (suc (suc (suc zero)))) h = (refl, refl)
names_distinct (suc (suc (suc (suc (suc n))))) h = elim (too_many n h) [ ]
  where
    too_many : (n : ℕ) → suc (suc (suc (suc (suc n)))) ≤ 4 → ⊥
    too_many n h = omega arith

pub fresh_agrees :
    (granted : List WorkspaceAccess) (steps : List ChildStep)
    → All (IsPlanned granted) steps
    → (all (step_artifacts_ok []) steps ≡ true) × All IsPending steps × (left steps ≡ length steps)
unfolding step_artifacts_ok
fresh_agrees granted [] h = (refl, tt, refl)
fresh_agrees granted (step ∷ steps) (p, h) =
    let (rest, waiting, count) = fresh_agrees granted steps h in
    let waits = has_state-false completed pending step refl p.waits in
    (rw p.empty (rw waits rest), (p.waits, waiting), rw waits (ap suc count))
