-- ===== src/Delegation/Steps.antt =====
-- The child steps of a plan that runs: the completed ones, then one in some state, then pending ones.
use teti_bot.Delegation.Relations.{has_state, in_state, is_only_target}
use teti_bot.Base.{
  ℕ, ◌≡◌, refl, sym, ap, ◌∙◌, ◌⊎◌, inl, inr, Bool, true, false, none, some, List, [], ◌∷◌, ◌++◌,
  map, arith, ◌==◌, number_equality, text_equality, All, Bool-cases, ==_refl, find_of-All,
}
use teti_bot.Base.{all, find}
use teti_bot.Delegation.{
  ChildStep, DelegationStep, child_execution, StepState, pending, completed, working,
  state_equality, state_number,
}
use teti_bot.Delegation.Runner.{modify_first, is_working, is_pending}
use teti_bot.Delegation.Order.{is_ordered}

abbrev pub IsPending : ChildStep → Type 0
IsPending step = step.state ≡ pending

abbrev pub IsCompleted : ChildStep → Type 0
IsCompleted step = step.state ≡ completed

-- The step with the index `i`, after the completed ones, is in this state; the others are pending.
abbrev pub At : StepState → ℕ → List ChildStep → Type 0
At state i [] = ⊥
At state i (step ∷ steps) =
    ((step.state ≡ state) × (step.step_index ≡ i) × All IsPending steps)
    ⊎ ((step.state ≡ completed) × At state i steps)

pub has_state-true :
    (state : StepState) (step : ChildStep) → step.state ≡ state → has_state state step ≡ true
has_state-true state step h = rw h (==_refl state)

pub has_state-false :
    (state other : StepState) (step : ChildStep)
    → (other == state) ≡ false
    → step.state ≡ other
    → has_state state step ≡ false
has_state-false state other step n h = rw h n

pending-all : (steps : List ChildStep) → All IsPending steps → all (has_state pending) steps ≡ true
pending-all [] h = refl
pending-all (step ∷ steps) (p, h) = rw p (pending-all steps h)

pub completed_all :
    (steps : List ChildStep) → All IsCompleted steps → all (has_state completed) steps ≡ true
completed_all [] h = refl
completed_all (step ∷ steps) (p, h) = rw p (completed_all steps h)

pub completed-is_ordered :
    (steps : List ChildStep) → All IsCompleted steps → is_ordered steps ≡ true
unfolding is_ordered
completed-is_ordered [] h = refl
completed-is_ordered (step ∷ steps) (p, h) = let rest = completed-is_ordered steps h in rw p rest

pub at-is_ordered :
    (state : StepState) (i : ℕ) (steps : List ChildStep)
    → (state == completed) ≡ false
    → At state i steps
    → is_ordered steps ≡ true
unfolding is_ordered
at-is_ordered state i [] n h = elim h [ ]
at-is_ordered state i (step ∷ steps) n (inl (s, j, rest)) = rw s (rw n (pending-all steps rest))
at-is_ordered state i (step ∷ steps) n (inr (c, h)) =
    let rest = at-is_ordered state i steps n h in rw c rest

-- No step of a state that the steps do not have.
pub pending-in_state :
    (state : StepState) (steps : List ChildStep) (others : List DelegationStep)
    → (pending == state) ≡ false
    → in_state state others ≡ []
    → All IsPending steps
    → in_state state (map child_execution steps ++ others) ≡ []
pending-in_state state [] others n o h = o
pending-in_state state (step ∷ steps) others n o (p, h) =
    rw p (rw n (pending-in_state state steps others n o h))

-- The step is the only one in its state.
pub at-is_only_target :
    (state : StepState) (i : ℕ) (steps : List ChildStep) (others : List DelegationStep)
    → (pending == state) ≡ false
    → (completed == state) ≡ false
    → in_state state others ≡ []
    → At state i steps
    → is_only_target i (in_state state (map child_execution steps ++ others)) ≡ true
at-is_only_target state i [] others n m o h = elim h [ ]
at-is_only_target state i (step ∷ steps) others n m o (inl (s, j, rest)) =
    rw s (rw (==_refl state) (rw (pending-in_state state steps others n o rest) (rw j (==_refl i))))
at-is_only_target state i (step ∷ steps) others n m o (inr (c, h)) =
    rw c (rw m (at-is_only_target state i steps others n m o h))

-- A step in the working state becomes one in another state.
pub at-modify_first :
    (state : StepState) (f : ChildStep → ChildStep) (i : ℕ) (steps : List ChildStep)
    → ((s : ChildStep) → ((f s).state ≡ state) × ((f s).step_index ≡ s.step_index))
    → At working i steps
    → At state i (modify_first is_working f steps)
at-modify_first state f i [] g h = elim h [ ]
at-modify_first state f i (step ∷ steps) g (inl (s, j, rest)) =
    rw (has_state-true working step s) (inl ((g step).0, (g step).1 ∙ j, rest))
at-modify_first state f i (step ∷ steps) g (inr (c, h)) =
    rw (has_state-false working completed step refl c)
      (inr (c, at-modify_first state f i steps g h))

-- Completed steps, then pending ones.
abbrev pub Between : List ChildStep → Type 0
Between [] = Unit
Between (step ∷ steps) =
    ((step.state ≡ completed) × Between steps) ⊎ ((step.state ≡ pending) × All IsPending steps)

pub pending-Between : (steps : List ChildStep) → All IsPending steps → Between steps
pending-Between [] h = tt
pending-Between (step ∷ steps) (p, h) = inr (p, h)

pub modify_first-Between :
    (f : ChildStep → ChildStep) (i : ℕ) (steps : List ChildStep)
    → ((s : ChildStep) → (f s).state ≡ completed)
    → At working i steps
    → Between (modify_first is_working f steps)
modify_first-Between f i [] g h = elim h [ ]
modify_first-Between f i (step ∷ steps) g (inl (s, j, rest)) =
    rw (has_state-true working step s) (inl (g step, pending-Between steps rest))
modify_first-Between f i (step ∷ steps) g (inr (c, h)) =
    rw (has_state-false working completed step refl c) (inl (c, modify_first-Between f i steps g h))

-- No pending step is left: all are completed.
pub Between-IsCompleted :
    (steps : List ChildStep) → Between steps → find is_pending steps ≡ none → All IsCompleted steps
Between-IsCompleted [] h e = tt
Between-IsCompleted (step ∷ steps) (inl (c, h)) e =
    let skipped = has_state-false pending completed step refl c in
    (c, Between-IsCompleted steps h (ground arith))
Between-IsCompleted (step ∷ steps) (inr (p, h)) e =
    let taken = has_state-true pending step p in let clash : some step ≡ none = ground arith in cc

-- The first pending step gets the state.
pub between-at :
    (state : StepState) (f : ChildStep → ChildStep) (steps : List ChildStep) {step : ChildStep}
    → ((s : ChildStep) → ((f s).state ≡ state) × ((f s).step_index ≡ s.step_index))
    → Between steps
    → find is_pending steps ≡ some step
    → At state step.step_index (modify_first is_pending f steps)
between-at state f [] g h e = cc
between-at state f (x ∷ xs) {step} g (inl (c, h)) e =
    let skipped = has_state-false pending completed x refl c in
    let found : find is_pending xs ≡ some step = ground arith in
    rw skipped (inr (c, between-at state f xs g h found))
between-at state f (x ∷ xs) {step} g (inr (p, h)) e =
    let taken = has_state-true pending x p in
    let found : some x ≡ some step = ground arith in
    let same : x ≡ step = cc in rw taken (inl ((g x).0, (g x).1 ∙ ap (λ s. s.step_index) same, h))

not_working_later :
    (p : ChildStep → Bool) (steps : List ChildStep) {step : ChildStep}
    → All IsPending steps
    → find p steps ≡ some step
    → step.state ≡ pending
not_working_later p steps h e = find_of-All p IsPending steps e h

-- A running child that is working is the first that is.
pub modify_first-working :
    (p : ChildStep → Bool) (f : ChildStep → ChildStep) (i : ℕ) (steps : List ChildStep)
    {step : ChildStep}
    → At working i steps
    → find p steps ≡ some step
    → step.state ≡ working
    → (modify_first p f steps ≡ modify_first is_working f steps)
      × (find is_working steps ≡ some step)
modify_first-working p f i [] h e w = elim h [ ]
modify_first-working p f i (x ∷ xs) {step} (inl (s, j, rest)) e w =
    let taken = has_state-true working x s in
    elim (Bool-cases (p x)) [
      | inl q ↦ let found : some x ≡ some step = ground arith in rw q (rw taken (refl, found))
      | inr q ↦
          let found : find p xs ≡ some step = ground arith in
          let late = not_working_later p xs rest found in
          let clash : working ≡ pending = sym w ∙ late in
          let impossible : state_number working ≡ state_number pending = ap state_number clash in
          ground arith
    ]
modify_first-working p f i (x ∷ xs) {step} (inr (c, h)) e w =
    let skipped = has_state-false working completed x refl c in
    elim (Bool-cases (p x)) [
      | inl q ↦
          let found : some x ≡ some step = ground arith in
          let same : x ≡ step = cc in
          let clash : working ≡ completed = sym w ∙ ap (λ s. s.state) (sym same) ∙ c in
          let impossible : state_number working ≡ state_number completed = ap state_number clash in
          ground arith
      | inr q ↦
          let found : find p xs ≡ some step = ground arith in
          let (same, first) = modify_first-working p f i xs h found w in
          rw q (rw skipped (ap (λ l. x ∷ l) same, first))
    ]
