-- ===== src/Callability/Registry/Prepared.antt =====
-- execution-store.ts: what a `prepare` that succeeds has done.
use teti_bot.Base.{
  ℕ, ◌+◌, ◌≡◌, refl, sym, ap, ◌∙◌, inl, inr, Bool, true, Option, none, some, arith, ◌==◌,
  number_equality, text_equality, if◌then◌else◌, Result, ok, err, Bool-cases, subst,
}
use teti_bot.Base.{is_some, ==_refl, >>=-eq-ok, >>-eq-ok}
use teti_bot.Callability.Execution.{
  ExecutionHandle, ExecutionError, ConnectorCapabilities, ExecutionSemantics, validate_handle,
}
use teti_bot.Callability.Registry.{StoreState, Env, PrepareInput, mutate}
use teti_bot.Callability.Registry.Prepare.{
  Outcome, prepare_step, rethrown, prepare, enter, resume_from, start_anew, refuse_checkpoint,
  may_resume, is_checkpoint_intact, new_handle, prune_handles, put_handle, previous_epoch,
  previous_checkpoint,
}
use teti_bot.Callability.Registry.Control.{is_current, is_running}
use teti_bot.Callability.Registry.Lookup.{
  IsValid, find_task, with_epoch, find_current_lem, valid_handles,
}
use teti_bot.Callability.Registry.Endings.{mutate-ok}
use teti_bot.Callability.Registry.Resumable.{
  IsResumable, HasDigest, may_resume-IsResumable, is_checkpoint_intact-HasDigest,
}
use teti_bot.Callability.Execution.{ProgressState}
use teti_bot.Callability.Registry.Pruning.{find-prune_handles}

module _ (env : Env) (now : ℕ) (input : PrepareInput) where
  abbrev pruned_from : Option ExecutionHandle → StoreState → Result ExecutionError StoreState
  pruned_from previous state = prune_handles env (record state {
    handles = put_handle (new_handle env now input previous) previous state.handles;
  })

  enter-ok :
      (previous : Option ExecutionHandle) (state s' : StoreState) (handle : ExecutionHandle)
      → enter env now input previous state ≡ ok (ok handle, s')
      → (handle ≡ new_handle env now input previous) × (pruned_from previous state ≡ ok s')
  unfolding enter
  enter-ok previous state s' handle h =
      let (a, b) = >>-eq-ok (validate_handle env.parse (new_handle env now input previous)) _ h in
      let (pruned, c, d) = >>=-eq-ok (pruned_from previous state) _ b in (cc, cc)

  module _ (capabilities : ConnectorCapabilities) (semantics : ExecutionSemantics)
      (state s' : StoreState) (handle : ExecutionHandle) where
    resume_from-ok :
        (previous : Option ExecutionHandle)
        → resume_from env now input capabilities semantics previous state ≡ ok (ok handle, s')
        → (p : ExecutionHandle) × (previous ≡ some p)
          × (may_resume capabilities semantics p ≡ true)
          × (is_checkpoint_intact env state p ≡ true)
          × (enter env now input previous state ≡ ok (ok handle, s'))
    unfolding resume_from refuse_checkpoint
    resume_from-ok none h = cc
    resume_from-ok (some p) h = elim (Bool-cases (may_resume capabilities semantics p)) [
      | inl may ↦ elim (Bool-cases (is_checkpoint_intact env state p)) [
        | inl intact ↦ (p, refl, may, intact, ground arith)
        | inr broken ↦ absurd (ground arith)
      ]
      | inr may_not ↦ absurd (ground arith)
    ]

    start_anew-ok :
        (previous : Option ExecutionHandle)
        → start_anew env now input capabilities semantics previous state ≡ ok (ok handle, s')
        → (previous ≡ none) × (enter env now input previous state ≡ ok (ok handle, s'))
    unfolding start_anew
    start_anew-ok none h = (refl, h)
    start_anew-ok (some p) h = cc

    module _ (run : prepare env now input capabilities semantics state ≡ (ok handle, s')) where
      prepare-ok :
          (prepare_step env now input capabilities semantics state ≡ ok (ok handle, s'))
          × IsValid env s'
      unfolding prepare
      prepare-ok =
          mutate-ok env (prepare_step env now input capabilities semantics) state s' (ok handle)
            (by_outcome (mutate env (prepare_step env now input capabilities semantics) state) run)
        where
          by_outcome :
              (r : Result ExecutionError Outcome × StoreState)
              → rethrown env now input capabilities semantics r ≡ (ok handle, s')
              → r ≡ (ok (ok handle), s')
          by_outcome (ok outcome, s) h = cc
          by_outcome (err e, s) h = cc

      branch :
          {b : Bool}
          → input.resume ≡ b
          → (if b
              then resume_from env now input capabilities semantics
                  (find_task input.task_id state)
                  state
              else start_anew env now input capabilities semantics
                  (find_task input.task_id state)
                  state)
            ≡ ok (ok handle, s')
      branch e =
          subst
            (λ c.
              (if c
                then resume_from env now input capabilities semantics
                    (find_task input.task_id state) state
                else start_anew env now input capabilities semantics (find_task input.task_id state)
                    state)
              ≡ ok (ok handle, s'))
            e prepare-ok.0

      prepare-enter :
          (enter env now input (find_task input.task_id state) state ≡ ok (ok handle, s'))
          × (is_some (find_task input.task_id state) ≡ input.resume)
      prepare-enter = elim (Bool-cases input.resume) [
        | inl e ↦
            let (p, found, may, intact, k) =
              resume_from-ok (find_task input.task_id state) (branch e) in
            (k, rw (found, e) refl)
        | inr e ↦
            let (missing, k) = start_anew-ok (find_task input.task_id state) (branch e) in
            (k, rw (missing, e) refl)
      ]

      -- A `prepare` of a valid state that succeeds returns a queued handle whose epoch is one more than
      -- the task's last (1 for a new task), and resumes exactly where the task had a handle. In the
      -- state that it leaves, which is valid, the handle is the task's own, and an epoch of the task
      -- is current if and only if it is the handle's.
      pub prepare_lem :
          IsValid env state
          → (epoch : ℕ)
          → (handle ≡ new_handle env now input (find_task input.task_id state))
            × (handle.execution_epoch ≡ previous_epoch (find_task input.task_id state) + 1)
            × (is_some (find_task input.task_id state) ≡ input.resume)
            × IsValid env s'
            × (find_task input.task_id s' ≡ some handle)
            × (is_current input.task_id epoch s' ≡ (handle.execution_epoch == epoch))
      unfolding new_handle is_current
      prepare_lem valid epoch =
          let (entered, resumed) = prepare-enter in
          let (made, pruned) = enter-ok (find_task input.task_id state) state s' handle entered in
          let new = new_handle env now input (find_task input.task_id state) in
          let there : find_task input.task_id s' ≡ some new =
            find-prune_handles input.task_id env new refl state s' (find_task input.task_id state)
              (valid_handles env input.task_id state valid) (==_refl input.task_id) refl pruned in
          let current : is_running (with_epoch epoch (some new)) ≡ (new.execution_epoch == epoch) =
            elim (Bool-cases (new.execution_epoch == epoch)) [
              | inl e ↦ rw e refl
              | inr e ↦ rw e refl
            ] in
          let looked = find_current_lem env input.task_id epoch s' prepare-ok.1 in
          (
            made,
            ap (λ x. x.execution_epoch) made,
            resumed,
            prepare-ok.1,
            there ∙ ap some (sym made),
            ap is_running looked
                ∙ (ap (λ o. is_running (with_epoch epoch o)) there
                    ∙ (current ∙ ap (λ x. x.execution_epoch == epoch) (sym made))),
          )

      -- A `prepare` that resumes and succeeds found a handle of the task, interrupted or failed, that names
      -- a checkpoint to restart from, whose file has the digest that an integrity record of the task
      -- and the checkpoint keeps; the connector supports resuming and checkpoints, and its semantics are
      -- pure. It returns a queued handle with the same checkpoint and the next epoch.
      pub prepare-resume :
          input.resume ≡ true
          → (p : ExecutionHandle) × (find_task input.task_id state ≡ some p)
            × IsResumable capabilities semantics p
            × HasDigest env state p
            × (handle.checkpoint_ref ≡ p.checkpoint_ref)
            × (handle.execution_epoch ≡ p.execution_epoch + 1)
            × (handle.progress.state ≡ ProgressState.queued)
      unfolding new_handle
      prepare-resume e =
          let (p, found, may, intact, k) =
            resume_from-ok (find_task input.task_id state) (branch e) in
          let (made, pruned) = enter-ok (find_task input.task_id state) state s' handle k in
          (
            p,
            found,
            may_resume-IsResumable capabilities semantics p may,
            is_checkpoint_intact-HasDigest env state p intact,
            ap (λ x. x.checkpoint_ref) made ∙ ap previous_checkpoint found,
            ap (λ x. x.execution_epoch) made ∙ ap (λ o. previous_epoch o + 1) found,
            ap (λ x. x.progress.state) made,
          )
