-- ===== src/Callability/TaskMachine/Tests.antt =====
-- Concrete runs of the task machine.
use teti_bot.Base.{◌≡◌, refl, false, some, List, [], ◌∷◌, number_equality, text_equality}
use teti_bot.Base.{is_ok}
use teti_bot.Callability.TaskMachine.{
  TaskRequest, Snapshot, TaskState, SafeErrorCode, CancelCode, Artifact, Operation, new_task, apply,
  apply_all, start, complete, fail, cancel,
}
use teti_bot.Callability.TaskMachine.Laws.{
  IsSound, ◌⟶◌, apply_all-IsSound, apply_all_terminal, apply-⟶,
}

abbrev request : TaskRequest
request = record {
  task_id = "task-1";
  adapter_id = "adapter";
  agent_id = "agent";
  capability_id = "answer";
  created_at = "0";
}

-- The second start throws, and so does the failure that comes after completion.
abbrev operations : List Operation
operations =
    Operation.started "1"
    ∷ Operation.started "2"
    ∷ Operation.completed_with (Artifact.text "done") "3"
    ∷ Operation.failed_with SafeErrorCode.timeout "4"
    ∷ []

abbrev ended : Snapshot
ended = record (new_task request) {
  state = TaskState.completed;
  started_at = some "1";
  updated_at = "3";
  completed_at = some "3";
  artifact = some (Artifact.text "done");
}

ended_lem : apply_all operations (new_task request) ≡ ended
unfolding apply_all apply start complete fail new_task
ended_lem = refl

apply_all-IsSound_example : IsSound request (apply_all operations (new_task request))
apply_all-IsSound_example = apply_all-IsSound request operations

apply_all_terminal_example :
    (is_ok (apply (Operation.started "5") ended) ≡ false) × (apply_all operations ended ≡ ended)
apply_all_terminal_example = apply_all_terminal (Operation.started "5") operations ended refl

abbrev stopped : Snapshot
stopped = record (new_task request) {
  state = TaskState.canceled;
  updated_at = "1";
  completed_at = some "1";
  safe_error_code = some SafeErrorCode.runtime_shutdown;
}

apply-⟶_example : (new_task request).state ⟶ stopped.state
unfolding apply cancel new_task
apply-⟶_example =
    apply-⟶ (Operation.canceled_with CancelCode.adapter_runtime_shutdown "1") (new_task request)
      stopped refl
