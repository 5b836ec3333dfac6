-- ===== src/Callability/TaskMachine/Laws.antt =====
-- The states that a task passes through, and what its snapshot holds in each.
use teti_bot.Base.{
  ◌≡◌, refl, ap, ◌∙◌, ◌⊎◌, Bool, true, false, List, [], ◌∷◌, arith, number_equality, text_equality,
  ok,
}
use teti_bot.Base.{is_some, is_ok}
use teti_bot.Callability.TaskMachine.{
  TaskState, submitted, working, completed, failed, canceled, TaskRequest, Snapshot, new_task,
  is_terminal, Operation, apply, kept, apply_all,
}

abbrev pub is_completed : TaskState → Bool
is_completed completed = true
is_completed _ = false

abbrev pub is_stopped : TaskState → Bool
is_stopped failed = true
is_stopped canceled = true
is_stopped _ = false

abbrev pub is_begun : TaskState → Bool
is_begun working = true
is_begun completed = true
is_begun _ = false

-- What a snapshot of a request's task holds: the request's identity, an artifact exactly when it is
-- completed, an error code exactly when it failed or was canceled, an end time exactly when it is
-- terminal, and a start time if it is working or completed.
pub record IsSound (r : TaskRequest) (s : Snapshot) : Type 0 where
  pub task : s.task_id ≡ r.task_id
  pub adapter : s.adapter_id ≡ r.adapter_id
  pub agent : s.agent_id ≡ r.agent_id
  pub capability : s.capability_id ≡ r.capability_id
  pub submitted : s.submitted_at ≡ r.created_at
  pub has_artifact : is_some s.artifact ≡ is_completed s.state
  pub has_error : is_some s.safe_error_code ≡ is_stopped s.state
  pub has_end : is_some s.completed_at ≡ is_terminal s.state
  pub has_start : (is_begun s.state ≡ false) ⊎ (is_some s.started_at ≡ true)

new_task-IsSound : (r : TaskRequest) → IsSound r (new_task r)
unfolding new_task
new_task-IsSound r = ground arith

kept-apply-IsSound :
    (r : TaskRequest) (op : Operation) (s : Snapshot)
    → IsSound r s
    → IsSound r (kept s (apply op s))
unfolding apply
kept-apply-IsSound r (Operation.started t) s h = ground arith
kept-apply-IsSound r (Operation.completed_with a t) s h = ground arith
kept-apply-IsSound r (Operation.failed_with c t) s h = ground arith
kept-apply-IsSound r (Operation.canceled_with c t) s h = ground arith

all-IsSound :
    (r : TaskRequest) (ops : List Operation) (s : Snapshot)
    → IsSound r s
    → IsSound r (apply_all ops s)
unfolding apply_all
all-IsSound r [] s h = h
all-IsSound r (op ∷ ops) s h = all-IsSound r ops (kept s (apply op s)) (kept-apply-IsSound r op s h)

-- After any calls on a new task, whether they succeed or throw, its snapshot is sound.
pub apply_all-IsSound :
    (r : TaskRequest) (ops : List Operation) → IsSound r (apply_all ops (new_task r))
apply_all-IsSound r ops = all-IsSound r ops (new_task r) (new_task-IsSound r)

kept-apply_terminal :
    (op : Operation) (s : Snapshot)
    → is_terminal s.state ≡ true
    → (is_ok (apply op s) ≡ false) × (kept s (apply op s) ≡ s)
unfolding apply
kept-apply_terminal (Operation.started t) s h = ground arith
kept-apply_terminal (Operation.completed_with a t) s h = ground arith
kept-apply_terminal (Operation.failed_with c t) s h = ground arith
kept-apply_terminal (Operation.canceled_with c t) s h = ground arith

-- A terminal task refuses every call, and no calls change it.
pub apply_all_terminal :
    (op : Operation) (ops : List Operation) (s : Snapshot)
    → is_terminal s.state ≡ true
    → (is_ok (apply op s) ≡ false) × (apply_all ops s ≡ s)
unfolding apply_all
apply_all_terminal op [] s h = ((kept-apply_terminal op s h).0, refl)
apply_all_terminal op (o ∷ ops) s h =
    let same = (kept-apply_terminal o s h).1 in
    ((kept-apply_terminal op s h).0, ap (apply_all ops) same ∙ (apply_all_terminal op ops s h).1)

-- The edges of the task's diagram.
infix 40 ◌⟶◌
pub data ◌⟶◌ : TaskState → TaskState → Type 0 where
  begin : submitted ⟶ working
  finish : working ⟶ completed
  fail_early : submitted ⟶ failed
  fail_late : working ⟶ failed
  cancel_early : submitted ⟶ canceled
  cancel_late : working ⟶ canceled

ruleset edges = (begin, finish, fail_early, fail_late, cancel_early, cancel_late)

-- A call that succeeds follows an edge of the diagram.
pub apply-⟶ : (op : Operation) (s s' : Snapshot) → apply op s ≡ ok s' → s.state ⟶ s'.state
unfolding apply
apply-⟶ (Operation.started t) s s' h = grind (arith, edges)
apply-⟶ (Operation.completed_with a t) s s' h = grind (arith, edges)
apply-⟶ (Operation.failed_with c t) s s' h = grind (arith, edges)
apply-⟶ (Operation.canceled_with c t) s s' h = grind (arith, edges)
