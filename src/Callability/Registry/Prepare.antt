-- ===== src/Callability/Registry/Prepare.antt =====
-- execution-store.ts: `prepare`, which starts an execution of a task or resumes one from its checkpoint.
use teti_bot.Base.{
  ℕ, ◌+◌, String, Bool, true, false, not, ◌&&◌, Option, none, some, List, [], ◌∷◌, ◌++◌, ◌==◌, ◌!=◌,
  number_equality, text_equality, if◌then◌else◌, Result, ok, err, ◌>>=◌, ◌>>◌,
}
use teti_bot.Base.{find, filter, any, replace_first, length, or_else, leb, fail_if, is_some}
use teti_bot.Callability.Execution.{
  ExecutionError, ConnectorCapabilities, ExecutionSemantics, ProgressState, ResumeCapability,
  ExecutionHandle, execution_handle_schema_version, is_checkpoint_restart, validate_handle,
}
use teti_bot.Callability.Registry.{
  IntegrityRecord, StoreState, Env, PrepareInput, max_execution_handles, has_task, same_text,
  vouches, mutate, has_ended, lease_expiry,
}

abbrev pub is_pure : ExecutionSemantics → Bool
is_pure ExecutionSemantics.workspace_pure_compute = true
is_pure ExecutionSemantics.external_side_effects_possible = false

abbrev pub is_resumable_state : ProgressState → Bool
is_resumable_state ProgressState.interrupted = true
is_resumable_state ProgressState.failed = true
is_resumable_state _ = false

-- The conditions of a resume on the previous handle, the Connector and its semantics.
unfoldable pub may_resume : ConnectorCapabilities → ExecutionSemantics → ExecutionHandle → Bool
may_resume capabilities semantics previous =
    is_checkpoint_restart previous.resume_capability
    && is_some previous.checkpoint_ref
    && is_resumable_state previous.progress.state
    && capabilities.supports_resume
    && capabilities.supports_checkpoint
    && is_pure semantics

abbrev pub digest_matches : Env → Option String → Option IntegrityRecord → Bool
digest_matches env none r = false
digest_matches env (some ref) none = false
digest_matches env (some ref) (some r) = ref != "" && same_text (env.digest ref) r.sha256

-- `isCheckpointIntact`.
unfoldable pub is_checkpoint_intact : Env → StoreState → ExecutionHandle → Bool
is_checkpoint_intact env state handle = digest_matches env handle.checkpoint_ref (
    find (λ r. r.task_id == handle.task_id && same_text handle.checkpoint_ref r.checkpoint_ref)
      state.integrity)

-- The previous handle once its checkpoint was found not to be intact.
unfoldable pub without_checkpoint : Env → ℕ → ExecutionHandle → ExecutionHandle
without_checkpoint env now previous = record previous {
  checkpoint_ref = none;
  resume_capability = ResumeCapability.cannot_resume;
  progress = record (previous.progress) {
    message = some "检查点完整性验证失败，已禁止恢复";
    updated_at = env.iso now;
  };
}

abbrev pub previous_epoch : Option ExecutionHandle → ℕ
previous_epoch none = 0
previous_epoch (some previous) = previous.execution_epoch

abbrev pub previous_checkpoint : Option ExecutionHandle → Option String
previous_checkpoint none = none
previous_checkpoint (some previous) = previous.checkpoint_ref

abbrev previous_capability : Option ExecutionHandle → ResumeCapability
previous_capability none = ResumeCapability.cannot_resume
previous_capability (some previous) = previous.resume_capability

unfoldable pub new_handle : Env → ℕ → PrepareInput → Option ExecutionHandle → ExecutionHandle
new_handle env now input previous = record {
  schema_version = execution_handle_schema_version;
  task_id = input.task_id;
  workspace_id = input.workspace_id;
  child_agent_id = input.child_agent_id;
  connector_id = input.connector_id;
  execution_epoch = previous_epoch previous + 1;
  provider_execution_id = none;
  lease_expires_at = lease_expiry env now;
  progress = record {
    state = ProgressState.queued;
    completed_units = none;
    total_units = none;
    message = some (if input.resume then "正在从显式检查点重新开始" else "等待本机 Child Agent");
    updated_at = env.iso now;
  };
  checkpoint_ref = previous_checkpoint previous;
  resume_capability = previous_capability previous;
}

-- Sorting by the time of the last update; a missing time sorts as the least.
abbrev pub updated_time : Env → ExecutionHandle → ℕ
updated_time env handle = or_else (env.parse handle.progress.updated_at) 0

unfoldable pub insert_by_time : Env → ExecutionHandle → List ExecutionHandle → List ExecutionHandle
insert_by_time env handle [] = handle ∷ []
insert_by_time env handle (x ∷ xs) =
    if leb (updated_time env handle) (updated_time env x)
    then handle ∷ x ∷ xs
    else x ∷ insert_by_time env handle xs

unfoldable pub sort_by_time : Env → List ExecutionHandle → List ExecutionHandle
unfolding insert_by_time
sort_by_time env [] = []
sort_by_time env (x ∷ xs) = insert_by_time env x (sort_by_time env xs)

-- `handles.splice(handles.indexOf(handle), 1)`; in a valid state a task has one handle.
unfoldable pub remove_task : String → List ExecutionHandle → List ExecutionHandle
remove_task task_id [] = []
remove_task task_id (x ∷ xs) = if x.task_id == task_id then xs else x ∷ remove_task task_id xs

-- The loop over the ended handles, oldest first, until the rest fits.
unfoldable pub drop_ended : List ExecutionHandle → List ExecutionHandle → List ExecutionHandle
unfolding remove_task
drop_ended [] handles = handles
drop_ended (x ∷ xs) handles =
    let rest = drop_ended xs (remove_task x.task_id handles) in
    if leb (length handles) max_execution_handles then handles else rest

-- The state with the handles that stay, and the integrity records that they still vouch for.
unfoldable pub pruned_to : List ExecutionHandle → StoreState → Result ExecutionError StoreState
pruned_to handles state = do
  fail_if (not (leb (length handles) max_execution_handles)) ExecutionError.capacity_exhausted
  ok (record {
    handles = handles;
    integrity = filter (λ r. any (vouches r) handles) state.integrity;
  })

unfoldable pub prune_handles : Env → StoreState → Result ExecutionError StoreState
unfolding drop_ended sort_by_time insert_by_time remove_task pruned_to
prune_handles env state =
    if leb (length state.handles) max_execution_handles
    then ok state
    else pruned_to (drop_ended (sort_by_time env (filter has_ended state.handles)) state.handles)
        state

-- The new handle in place of the previous one, or behind the others.
abbrev pub put_handle :
    ExecutionHandle → Option ExecutionHandle → List ExecutionHandle → List ExecutionHandle
put_handle handle none handles = handles ++ handle ∷ []
put_handle handle (some previous) handles = replace_first (has_task previous.task_id) handle handles

-- What `prepare` works out inside `mutate`: a handle, or the error that it throws after saving.
abbrev pub Outcome : Type 0
Outcome = Result ExecutionError ExecutionHandle

module _ (env : Env) (now : ℕ) (input : PrepareInput) where
  unfoldable pub enter :
      Option ExecutionHandle → StoreState → Result ExecutionError (Outcome × StoreState)
  enter previous state = do
    let handle = new_handle env now input previous
    validate_handle env.parse handle
    pruned ← prune_handles env (record state { handles = put_handle handle previous state.handles })
    ok (ok handle, pruned)

  unfoldable pub refuse_checkpoint :
      ExecutionHandle → StoreState → Result ExecutionError (Outcome × StoreState)
  refuse_checkpoint previous state = ok (
    err ExecutionError.checkpoint_integrity_failed,
    record {
      handles =
          replace_first (has_task previous.task_id) (without_checkpoint env now previous)
            state.handles;
      integrity = filter (λ r. r.task_id != previous.task_id) state.integrity;
    },
  )

  module _ (capabilities : ConnectorCapabilities) (semantics : ExecutionSemantics) where
    unfoldable pub resume_from :
        Option ExecutionHandle → StoreState → Result ExecutionError (Outcome × StoreState)
    resume_from none state = err ExecutionError.resume_unavailable
    resume_from (some previous) state =
        if may_resume capabilities semantics previous
        then if is_checkpoint_intact env state previous
          then enter (some previous) state
          else refuse_checkpoint previous state
        else err ExecutionError.resume_unavailable

    unfoldable pub start_anew :
        Option ExecutionHandle → StoreState → Result ExecutionError (Outcome × StoreState)
    start_anew none state = enter none state
    start_anew (some previous) state = err ExecutionError.handle_exists

    abbrev pub rethrown : Result ExecutionError Outcome × StoreState → Outcome × StoreState
    rethrown (ok outcome, state) = (outcome, state)
    rethrown (err e, state) = (err e, state)

    abbrev pub prepare_step : StoreState → Result ExecutionError (Outcome × StoreState)
    prepare_step state =
        let previous = find (has_task input.task_id) state.handles in
        if input.resume then resume_from previous state else start_anew previous state

    unfoldable pub prepare : StoreState → Outcome × StoreState
    prepare state = rethrown (mutate env prepare_step state)
