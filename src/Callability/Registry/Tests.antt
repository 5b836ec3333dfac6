-- ===== src/Callability/Registry/Tests.antt =====
-- Concrete runs of the registry: a running execution, and an interrupted one with a checkpoint.
use teti_bot.Base.{
  ℕ, ◌+◌, String, ◌≡◌, refl, true, false, Option, none, some, [], ◌∷◌, ◌==◌, number_equality,
  text_equality, ok, ◌⊎◌, err, utf16_length,
}
use teti_bot.Base.{is_alnum, is_some}
use teti_bot.Callability.Execution.{
  ExecutionHandle, ProgressState, ResumeCapability, ConnectorCapabilities, ExecutionSemantics,
  validate_handle, handle_ok, progress_ok, is_safe_id, is_safe_slug, is_safe_provider_id,
  valid_timestamp,
}
use teti_bot.Callability.Registry.{
  StoreState, Env, PrepareInput, has_ended, validate_store_state, validate_handles,
  validate_integrity, mutate, transition, transitioned, mark_running, renew, lease_expiry,
}
use teti_bot.Callability.Registry.Control.{
  Ending, ending_state, terminal_message, finish, cancel, stopped, interrupted, reconcile_each,
  reconcile, is_current,
}
use teti_bot.Callability.Registry.Prepare.{
  prepare, enter, resume_from, start_anew, may_resume, is_checkpoint_intact, new_handle,
  prune_handles, previous_epoch,
}
use teti_bot.Callability.Registry.Prepare.{without_checkpoint, refuse_checkpoint}
use teti_bot.Callability.Registry.Refused.{prepare_error}
use teti_bot.Callability.Execution.{ExecutionError}
use teti_bot.Callability.Registry.Lookup.{IsValid, find_task}
use teti_bot.Callability.Registry.Fencing.{stale_epoch}
use teti_bot.Callability.Registry.Endings.{finish_lem, ended_handle}
use teti_bot.Callability.Registry.Prepared.{prepare_lem, prepare-resume}
use teti_bot.Callability.Registry.Resumable.{IsResumable, HasDigest}
use teti_bot.Callability.Registry.Reconciled.{Reconciles, reconcile_lem}

abbrev digest : String
digest = "sha256:0123456789abcdef0123456789abcdef0123456789abcdef0123456789abcdef"

abbrev env : Env
env = record { parse = λ _. some 0; iso = λ n. "time"; lease_ms = 60000; digest = λ _. some digest }

abbrev handle_of :
    (task_id : String) (epoch : ℕ)
    → ProgressState
    → Option String
    → ResumeCapability
    → ExecutionHandle
handle_of task_id epoch state checkpoint resume = record {
  schema_version = 1;
  task_id = task_id;
  workspace_id = "workspace";
  child_agent_id = "agent";
  connector_id = "connector";
  execution_epoch = epoch;
  provider_execution_id = none;
  lease_expires_at = "time";
  progress = record {
    state = state;
    completed_units = none;
    total_units = none;
    message = none;
    updated_at = "time";
  };
  checkpoint_ref = checkpoint;
  resume_capability = resume;
}

abbrev running : ExecutionHandle
running = handle_of "task-1" 3 ProgressState.running none ResumeCapability.cannot_resume

abbrev waiting : ExecutionHandle
waiting =
    handle_of "task-2" 1 ProgressState.interrupted (some "checkpoint.bin")
      ResumeCapability.checkpoint_restart

abbrev state : StoreState
state = record {
  handles = running ∷ waiting ∷ [];
  integrity =
      record {
        task_id = "task-2";
        captured_execution_epoch = 1;
        checkpoint_ref = "checkpoint.bin";
        sha256 = digest;
      }
      ∷ [];
}

computes : Unit {0}
unfolding is_alnum validate_handle handle_ok progress_ok is_safe_id is_safe_slug is_safe_provider_id
    valid_timestamp utf16_length validate_store_state validate_handles validate_integrity mutate
    transition transitioned mark_running renew lease_expiry ending_state terminal_message finish
    cancel stopped interrupted reconcile_each reconcile is_current prepare enter resume_from
    start_anew may_resume is_checkpoint_intact new_handle prune_handles
computes = tt

state-IsValid : IsValid env state
unfolding computes new_handle interrupted transitioned
state-IsValid = refl

-- Epoch 2 of the first task is stale.
stale_epoch_example :
    (mark_running env 0 "task-1" 2 none state ≡ (ok false, state))
    × (renew env 0 "task-1" 2 state ≡ (ok false, state))
    × (finish env 0 "task-1" 2 Ending.completed none state ≡ (ok false, state))
    × (cancel env 0 "task-1" (some 2) state ≡ (ok false, state))
unfolding computes new_handle interrupted transitioned
stale_epoch_example =
    stale_epoch env 0 "task-1" 2 state state-IsValid refl none Ending.completed none

abbrev after_finish : StoreState
after_finish = record state {
  handles = ended_handle env 0 "task-1" 3 Ending.completed none state state running ∷ waiting ∷ [];
}

finish_lem_example :
    (h : ExecutionHandle) × (find_task "task-1" state ≡ some h)
    × (h.execution_epoch ≡ 3)
    × (has_ended h ≡ false)
    × (find_task "task-1" after_finish
        ≡ some (ended_handle env 0 "task-1" 3 Ending.completed none state after_finish h))
    × IsValid env after_finish
    × (is_current "task-1" 3 after_finish ≡ false)
unfolding computes new_handle interrupted transitioned
finish_lem_example =
    finish_lem env 0 "task-1" 3 Ending.completed none state after_finish state-IsValid refl 3

abbrev capabilities : ConnectorCapabilities
capabilities = record {
  supports_progress = true;
  supports_checkpoint = true;
  supports_resume = true;
  supports_pause = true;
  supports_cancel = true;
}

abbrev resume_input : PrepareInput
resume_input = record {
  task_id = "task-2";
  workspace_id = "workspace";
  child_agent_id = "agent";
  connector_id = "connector";
  resume = true;
}

abbrev resumed : ExecutionHandle
resumed = new_handle env 0 resume_input (some waiting)

abbrev after_prepare : StoreState
after_prepare = record state { handles = running ∷ resumed ∷ [] }

prepare_result :
    prepare env 0 resume_input capabilities ExecutionSemantics.workspace_pure_compute state
    ≡ (ok resumed, after_prepare)
unfolding computes new_handle interrupted transitioned
prepare_result = refl

prepare_lem_example :
    (resumed ≡ new_handle env 0 resume_input (find_task "task-2" state))
    × (resumed.execution_epoch ≡ previous_epoch (find_task "task-2" state) + 1)
    × (is_some (find_task "task-2" state) ≡ true)
    × IsValid env after_prepare
    × (find_task "task-2" after_prepare ≡ some resumed)
    × (is_current "task-2" 1 after_prepare ≡ (resumed.execution_epoch == 1))
prepare_lem_example =
    prepare_lem env 0 resume_input capabilities ExecutionSemantics.workspace_pure_compute state
      after_prepare resumed prepare_result state-IsValid 1

prepare-resume_example :
    (p : ExecutionHandle) × (find_task "task-2" state ≡ some p)
    × IsResumable capabilities ExecutionSemantics.workspace_pure_compute p
    × HasDigest env state p
    × (resumed.checkpoint_ref ≡ p.checkpoint_ref)
    × (resumed.execution_epoch ≡ p.execution_epoch + 1)
    × (resumed.progress.state ≡ ProgressState.queued)
prepare-resume_example =
    prepare-resume env 0 resume_input capabilities ExecutionSemantics.workspace_pure_compute state
      after_prepare resumed prepare_result refl

abbrev after_reconcile : StoreState
after_reconcile = record state {
  handles = interrupted env 0 running ∷ interrupted env 0 waiting ∷ [];
}

reconcile_lem_example :
    Reconciles [] state.handles after_reconcile.handles
      (interrupted env 0 running ∷ interrupted env 0 waiting ∷ [])
    × IsValid env after_reconcile
unfolding computes new_handle interrupted transitioned
reconcile_lem_example =
    reconcile_lem env 0 [] state after_reconcile
      (interrupted env 0 running ∷ interrupted env 0 waiting ∷ []) refl

-- The checkpoint's file is gone.
abbrev env_lost : Env
env_lost = record env { digest = λ _. none }

abbrev after_refusal : StoreState
after_refusal = record {
  handles = running ∷ without_checkpoint env_lost 0 waiting ∷ [];
  integrity = [];
}

prepare_error_example :
    (after_refusal ≡ state)
    ⊎ ((ExecutionError.checkpoint_integrity_failed ≡ ExecutionError.checkpoint_integrity_failed)
        × ((p : ExecutionHandle) × (find_task "task-2" state ≡ some p)
            × (is_checkpoint_intact env_lost state p ≡ false))
        × IsValid env_lost after_refusal
        × (prepare env_lost 0 resume_input capabilities ExecutionSemantics.workspace_pure_compute
              after_refusal
            ≡ (err ExecutionError.resume_unavailable, after_refusal)))
unfolding computes without_checkpoint refuse_checkpoint
prepare_error_example =
    prepare_error env_lost 0 resume_input capabilities ExecutionSemantics.workspace_pure_compute
      state after_refusal ExecutionError.checkpoint_integrity_failed refl
