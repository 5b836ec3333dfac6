-- ===== src/Callability/Registry/Refused.antt =====
-- execution-store.ts: what a `prepare` that throws leaves behind.
use teti_bot.Base.{
  ℕ, ◌≡◌, refl, sym, ap, ◌∙◌, ◌⊎◌, inl, inr, Bool, true, false, Option, none, some, arith, ◌!=◌,
  number_equality, text_equality, if◌then◌else◌, Result, ok, err, Bool-cases, eq_iff, subst,
}
use teti_bot.Base.{find, filter, replace_first, find-test, >>=-eq-ok, >>-eq-ok}
use teti_bot.Callability.Execution.{
  ExecutionHandle, ExecutionError, ConnectorCapabilities, ExecutionSemantics, validate_handle,
}
use teti_bot.Callability.Registry.{
  StoreState, Env, PrepareInput, has_task, mutate, validate_store_state, saved, ran,
}
use teti_bot.Callability.Registry.Prepare.{
  enter, resume_from, start_anew, refuse_checkpoint, may_resume, is_checkpoint_intact,
  without_checkpoint, new_handle, prune_handles, put_handle, prepare, Outcome, prepare_step,
  rethrown,
}
use teti_bot.Callability.Registry.Lookup.{find-replace_first, IsValid, find_task}

module _ (env : Env) (now : ℕ) (input : PrepareInput) (capabilities : ConnectorCapabilities)
    (semantics : ExecutionSemantics) (state : StoreState) where
  -- The state once the checkpoint of the task's handle was found not to be intact.
  abbrev pub refused : ExecutionHandle → StoreState
  refused p = record {
    handles = replace_first (has_task p.task_id) (without_checkpoint env now p) state.handles;
    integrity = filter (λ r. r.task_id != p.task_id) state.integrity;
  }

  enter-ok_err :
      (previous : Option ExecutionHandle) (e : ExecutionError) (s' : StoreState)
      → enter env now input previous state ≡ ok (err e, s')
      → ⊥
  unfolding enter
  enter-ok_err previous e s' h =
      let put = record state {
        handles = put_handle (new_handle env now input previous) previous state.handles;
      } in
      let (a, b) = >>-eq-ok (validate_handle env.parse (new_handle env now input previous)) _ h in
      let (pruned, c, d) = >>=-eq-ok (prune_handles env put) _ b in cc

  -- The one way to save a state and throw.
  IsRefusal : ExecutionError → StoreState → Type 0
  IsRefusal e s' =
      (e ≡ ExecutionError.checkpoint_integrity_failed)
      × (input.resume ≡ true)
      × (p : ExecutionHandle) × (find_task input.task_id state ≡ some p)
      × (is_checkpoint_intact env state p ≡ false)
      × (s' ≡ refused p)

  resumed-IsRefusal :
      (e : ExecutionError) (s' : StoreState) (previous : Option ExecutionHandle)
      → input.resume ≡ true
      → find_task input.task_id state ≡ previous
      → resume_from env now input capabilities semantics previous state ≡ ok (err e, s')
      → IsRefusal e s'
  unfolding resume_from refuse_checkpoint IsRefusal
  resumed-IsRefusal e s' none r f h = cc
  resumed-IsRefusal e s' (some p) r f h = elim (Bool-cases (may_resume capabilities semantics p)) [
    | inl may ↦ elim (Bool-cases (is_checkpoint_intact env state p)) [
      | inl intact ↦ absurd (enter-ok_err (some p) e s' (ground arith))
      | inr broken ↦
          let same : ok (err ExecutionError.checkpoint_integrity_failed, refused p)
              ≡ ok (err e, s') =
            rw (may, broken) at h in
          (cc, r, p, f, broken, cc)
    ]
    | inr may_not ↦ absurd (ground arith)
  ]

  step-IsRefusal :
      (e : ExecutionError) (s' : StoreState) (b : Bool)
      → input.resume ≡ b
      → (if b
          then resume_from env now input capabilities semantics
              (find_task input.task_id state)
              state
          else start_anew env now input capabilities semantics
              (find_task input.task_id state)
              state)
        ≡ ok (err e, s')
      → IsRefusal e s'
  unfolding start_anew
  step-IsRefusal e s' true r h = resumed-IsRefusal e s' (find_task input.task_id state) r refl h
  step-IsRefusal e s' false r h = absurd (anew (find_task input.task_id state) h)
    where
      anew :
          (o : Option ExecutionHandle)
          → start_anew env now input capabilities semantics o state ≡ ok (err e, s')
          → ⊥
      anew none k = enter-ok_err none e s' k
      anew (some p) k = cc

  prepare-IsRefusal :
      (e : ExecutionError) (s' : StoreState)
      → prepare env now input capabilities semantics state ≡ (err e, s')
      → (s' ≡ state) ⊎ (IsRefusal e s' × IsValid env s')
  unfolding prepare mutate
  prepare-IsRefusal e s' h = by_run (prepare_step env now input capabilities semantics state) refl h
    where
      by_save :
          (outcome : Outcome) (new : StoreState) (v : Result ExecutionError (Unit {0}))
          → prepare_step env now input capabilities semantics state ≡ ok (outcome, new)
          → validate_store_state env new ≡ v
          → rethrown env now input capabilities semantics (saved v outcome state new) ≡ (err e, s')
          → (s' ≡ state) ⊎ (IsRefusal e s' × IsValid env s')
      by_save outcome new (err f) r v k = inl cc
      by_save outcome new (ok _) r v k =
          let thrown : outcome ≡ err e = ap (λ x. x.0) k in
          let left : new ≡ s' = ap (λ x. x.1) k in
          let step : prepare_step env now input capabilities semantics state ≡ ok (err e, s') =
            r ∙ ap ok (ap (λ x. (x, new)) thrown ∙ ap (λ x. (err e, x)) left) in
          inr (step-IsRefusal e s' input.resume refl step, subst (IsValid env) left v)

      by_run :
          (r : Result ExecutionError (Outcome × StoreState))
          → prepare_step env now input capabilities semantics state ≡ r
          → rethrown env now input capabilities semantics (ran env r state) ≡ (err e, s')
          → (s' ≡ state) ⊎ (IsRefusal e s' × IsValid env s')
      by_run (err f) r k = inl cc
      by_run (ok (outcome, new)) r k = by_save outcome new (validate_store_state env new) r refl k

-- Without its checkpoint, a task's handle cannot be resumed.
resume-unavailable :
    (env : Env) (now : ℕ) (input : PrepareInput) (capabilities : ConnectorCapabilities)
    (semantics : ExecutionSemantics) (state : StoreState) (p : ExecutionHandle)
    → input.resume ≡ true
    → find_task input.task_id state ≡ some (without_checkpoint env now p)
    → prepare env now input capabilities semantics state
      ≡ (err ExecutionError.resume_unavailable, state)
unfolding prepare mutate resume_from may_resume without_checkpoint
resume-unavailable env now input capabilities semantics state p r f = rw (r, f) refl

module _ (env : Env) (now : ℕ) (input : PrepareInput) (capabilities : ConnectorCapabilities)
    (semantics : ExecutionSemantics) (state s' : StoreState) (e : ExecutionError) where
  refused-find_task :
      (p : ExecutionHandle)
      → find_task input.task_id state ≡ some p
      → find_task input.task_id (refused env now input capabilities semantics state p)
        ≡ some (without_checkpoint env now p)
  unfolding without_checkpoint
  refused-find_task p f =
      let own = find-test (has_task input.task_id) state.handles f in
      let same = (eq_iff p.task_id input.task_id).0 own in
      subst
        (λ i.
          find (has_task input.task_id)
            (replace_first (has_task i) (without_checkpoint env now p) state.handles)
          ≡ some (without_checkpoint env now p))
        (sym same)
        (find-replace_first (has_task input.task_id) (without_checkpoint env now p) state.handles f
          own)

  -- A `prepare` that throws leaves the state as it was, unless it was to resume a handle whose checkpoint
  -- is not intact: then it threw that, the state that it leaves is valid, and the same `prepare` of that
  -- state throws that the resume is unavailable and changes nothing.
  pub prepare_error :
      prepare env now input capabilities semantics state ≡ (err e, s')
      → (s' ≡ state)
        ⊎ ((e ≡ ExecutionError.checkpoint_integrity_failed)
            × ((p : ExecutionHandle) × (find_task input.task_id state ≡ some p)
                × (is_checkpoint_intact env state p ≡ false))
            × IsValid env s'
            × (prepare env now input capabilities semantics s'
                ≡ (err ExecutionError.resume_unavailable, s')))
  unfolding IsRefusal
  prepare_error h = elim (prepare-IsRefusal env now input capabilities semantics state e s' h) [
    | inl same ↦ inl same
    | inr (refusal, valid) ↦
        let (thrown, r, p, f, broken, left) = refusal in
        let there =
          subst (λ s. find_task input.task_id s ≡ some (without_checkpoint env now p)) (sym left)
            (refused-find_task p f) in
        inr (
          thrown,
          (p, f, broken),
          valid,
          resume-unavailable env now input capabilities semantics s' p r there,
        )
  ]
