-- ===== src/Callability/Registry/Control.antt =====
-- execution-store.ts: `finish`, `cancel`, `isCurrent`, `reconcile` and `captureCheckpoint`.
use teti_bot.Base.{
  ℕ, String, Bool, true, false, not, ◌||◌, Option, none, some, List, [], ◌∷◌, ◌++◌, ◌==◌, ◌!=◌,
  number_equality, text_equality, if◌then◌else◌, Result, ok, err,
}
use teti_bot.Base.{find, filter, any, or_else}
use teti_bot.Callability.Execution.{
  ExecutionError, ProgressState, ResumeCapability, ExecutionHandle, is_checkpoint_restart,
}
use teti_bot.Callability.Registry.{
  IntegrityRecord, StoreState, Env, has_task, is_current_handle, mutate, with_handle, has_ended,
  transition,
}

-- The states that `finish` takes.
pub data Ending : Type 0 where
  completed failed canceled : Ending

unfoldable pub ending_state : Ending → ProgressState
ending_state completed = ProgressState.completed
ending_state failed = ProgressState.failed
ending_state canceled = ProgressState.canceled

unfoldable pub terminal_message : Ending → String
terminal_message completed = "执行已完成"
terminal_message canceled = "执行已取消"
terminal_message failed = "执行失败"

-- The progress and lease of an execution that stops at a time.
unfoldable pub stopped : Env → ℕ → ProgressState → String → ExecutionHandle → ExecutionHandle
stopped env now state message handle = record handle {
  progress = record {
    state = state;
    completed_units = handle.progress.completed_units;
    total_units = handle.progress.total_units;
    message = some message;
    updated_at = env.iso now;
  };
  lease_expires_at = env.iso now;
}

abbrev pub epoch_differs : Option ℕ → ExecutionHandle → Bool
epoch_differs none handle = false
epoch_differs (some epoch) handle = handle.execution_epoch != epoch

unfoldable pub interrupted : Env → ℕ → ExecutionHandle → ExecutionHandle
unfolding stopped
interrupted env now handle =
    record (stopped env now ProgressState.interrupted
      (if is_checkpoint_restart handle.resume_capability
        then "执行已中断，可从显式检查点重新开始"
        else "执行已中断，当前 Child Agent 不支持恢复")
      handle) { provider_execution_id = none }

-- Whether `reconcile` passes a handle over.
abbrev pub is_left : List String → ExecutionHandle → Bool
is_left active handle = has_ended handle || any (λ id. id == handle.task_id) active

-- The loop of `reconcile`: the handles after it, and those that it interrupted.
unfoldable pub reconcile_each :
    Env
    → ℕ
    → (active : List String) → List ExecutionHandle
    → List ExecutionHandle × List ExecutionHandle
reconcile_each env now active [] = ([], [])
reconcile_each env now active (handle ∷ handles) =
    let (all, found) = reconcile_each env now active handles in
    if is_left active handle
    then (handle ∷ all, found)
    else (interrupted env now handle ∷ all, interrupted env now handle ∷ found)

unfoldable pub with_checkpoint : String → ExecutionHandle → ExecutionHandle
with_checkpoint destination handle = record handle {
  checkpoint_ref = some destination;
  resume_capability = ResumeCapability.checkpoint_restart;
}

-- The integrity records once the checkpoint of a task was captured.
unfoldable pub with_integrity : IntegrityRecord → List IntegrityRecord → List IntegrityRecord
with_integrity r rs = filter (λ x. x.task_id != r.task_id) rs ++ r ∷ []

-- The end of `captureCheckpoint`.
abbrev pub captured :
    (task_id destination sha256 : String) (epoch : ℕ)
    → Result ExecutionError (Bool × StoreState)
    → Result ExecutionError (Bool × StoreState)
captured task_id destination sha256 epoch (ok (true, state)) = ok (
  true,
  record state {
    integrity =
        with_integrity
          (record {
            task_id = task_id;
            captured_execution_epoch = epoch;
            checkpoint_ref = destination;
            sha256 = sha256;
          })
          state.integrity;
  },
)
captured task_id destination sha256 epoch r = r

-- How the copy of the checkpoint's file ended.
abbrev after_copy :
    Result ExecutionError (String × String)
    → (String → String → StoreState → Result ExecutionError Bool × StoreState)
    → StoreState
    → Result ExecutionError Bool × StoreState
after_copy (ok (destination, sha256)) k state = k destination sha256 state
after_copy (err e) k state = (err e, state)

module _ (env : Env) (now : ℕ) where
  unfoldable pub finish :
      (task_id : String) (epoch : ℕ)
      → Ending
      → (message : Option String) → StoreState
      → Result ExecutionError Bool × StoreState
  unfolding ending_state terminal_message
  finish task_id epoch ending message =
      transition env now task_id epoch (ending_state ending) none
        (or_else message (terminal_message ending))

  unfoldable pub cancel :
      (task_id : String) → (epoch : Option ℕ) → StoreState → Result ExecutionError Bool × StoreState
  cancel task_id epoch = mutate env λ state.
      with_handle (has_task task_id) (λ handle. epoch_differs epoch handle || has_ended handle)
        (stopped env now ProgressState.canceled "执行已取消") state
        (find (has_task task_id) state.handles)

  unfoldable pub reconcile :
      (active : List String)
      → StoreState
      → Result ExecutionError (List ExecutionHandle) × StoreState
  reconcile active = mutate env λ state.
      let (all, found) = reconcile_each env now active state.handles in
      ok (found, record state { handles = all })

  -- `copy` is the destination and the digest of the copied file, or what copying it threw.
  unfoldable pub capture_checkpoint :
      (task_id : String) (epoch : ℕ) (resume_eligible : Bool)
      → (copy : Result ExecutionError (String × String)) → StoreState
      → Result ExecutionError Bool × StoreState
  capture_checkpoint task_id epoch resume_eligible copy state =
      if resume_eligible
      then after_copy copy
          (λ destination sha256. mutate env λ s. captured task_id destination sha256 epoch (
            with_handle (is_current_handle task_id epoch) has_ended (with_checkpoint destination) s
              (find (is_current_handle task_id epoch) s.handles)))
          state
      else (ok false, state)

abbrev pub is_running : Option ExecutionHandle → Bool
is_running none = false
is_running (some handle) = not (has_ended handle)

unfoldable pub is_current : (task_id : String) (epoch : ℕ) → StoreState → Bool
is_current task_id epoch state = is_running (find (is_current_handle task_id epoch) state.handles)
