-- ===== src/Callability/Registry/Fencing.antt =====
-- execution-store.ts: the epoch of an execution as a fence, and the end of an execution as final.
use teti_bot.Base.{
  ℕ, String, ◌≡◌, refl, inl, inr, Bool, false, ◌||◌, Option, none, some, arith, ◌==◌,
  number_equality, text_equality, Result, ok, Bool-cases, subst,
}
use teti_bot.Base.{find}
use teti_bot.Callability.Execution.{ExecutionHandle, ExecutionError}
use teti_bot.Callability.Registry.{
  StoreState, Env, has_task, is_current_handle, mutate, with_handle, has_ended, transition,
  transitioned, mark_running, renew,
}
use teti_bot.Callability.Registry.Control.{
  Ending, finish, cancel, is_current, is_running, epoch_differs,
}
use teti_bot.Callability.Registry.Lookup.{IsValid, find_task, with_epoch, find_current_lem}

with_handle-declines :
    (test : ExecutionHandle → Bool) (change : ExecutionHandle → ExecutionHandle)
    (state : StoreState) (o : Option ExecutionHandle)
    → is_running o ≡ false
    → with_handle test has_ended change state o ≡ ok (false, state)
with_handle-declines test change state none h = refl
with_handle-declines test change state (some handle) h = ground arith

pub mutate-declines :
    (env : Env) (operation : StoreState → Result ExecutionError (Bool × StoreState))
    (state : StoreState)
    → IsValid env state
    → operation state ≡ ok (false, state)
    → mutate env operation state ≡ (ok false, state)
unfolding mutate
mutate-declines env operation state v h = rw h (rw v refl)

cancel-declines :
    (task_id : String) (epoch : ℕ) (change : ExecutionHandle → ExecutionHandle) (state : StoreState)
    (o : Option ExecutionHandle)
    → is_running (with_epoch epoch o) ≡ false
    → with_handle
        (has_task task_id)
        (λ handle. epoch_differs (some epoch) handle || has_ended handle)
        change
        state
        o
      ≡ ok (false, state)
cancel-declines task_id epoch change state none h = refl
cancel-declines task_id epoch change state (some handle) h =
    elim (Bool-cases (handle.execution_epoch == epoch)) [
      | inl e ↦ ground arith
      | inr e ↦ ground arith
    ]

module _ (env : Env) (now : ℕ) (task_id : String) (epoch : ℕ) (state : StoreState)
    (valid : IsValid env state) (stale : is_current task_id epoch state ≡ false) where
  not_running : is_running (find (is_current_handle task_id epoch) state.handles) ≡ false
  unfolding is_current
  not_running = stale

  pub transition-stale :
      (next : _) (provider : _) (message : String)
      → transition env now task_id epoch next provider message state ≡ (ok false, state)
  unfolding transition
  transition-stale next provider message = mutate-declines env _ state valid (
      with_handle-declines (is_current_handle task_id epoch)
        (transitioned env now next provider message) state
        (find (is_current_handle task_id epoch) state.handles) not_running)

  -- In a valid state, under an epoch that is not a task's current one, or whose execution has ended,
  -- starting, renewing, ending and canceling the execution all return `false` and change nothing.
  pub stale_epoch :
      (provider : Option String) (ending : Ending) (message : Option String)
      → (mark_running env now task_id epoch provider state ≡ (ok false, state))
        × (renew env now task_id epoch state ≡ (ok false, state))
        × (finish env now task_id epoch ending message state ≡ (ok false, state))
        × (cancel env now task_id (some epoch) state ≡ (ok false, state))
  unfolding mark_running renew finish cancel
  stale_epoch provider ending message = (
    transition-stale _ _ _,
    mutate-declines env _ state valid (
        with_handle-declines (is_current_handle task_id epoch) _ state
          (find (is_current_handle task_id epoch) state.handles) not_running),
    transition-stale _ _ _,
    mutate-declines env _ state valid (
        cancel-declines task_id epoch _ state (find_task task_id state) (
          subst (λ o. is_running o ≡ false) (find_current_lem env task_id epoch state valid)
            not_running)),
  )
