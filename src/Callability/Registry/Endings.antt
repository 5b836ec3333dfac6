-- ===== src/Callability/Registry/Endings.antt =====
-- execution-store.ts: what an operation that succeeds does to the task's handle, and that the end of
-- an execution is final.
use teti_bot.Base.{
  ◌≡◌, refl, inl, inr, Bool, true, false, Option, none, some, arith, number_equality, text_equality,
  Result, ok, err, Bool-cases, subst, ℕ, String, or_else, sym, ◌==◌, ◌∙◌, find, find-test, ap,
}
use teti_bot.Base.{replace_first}
use teti_bot.Callability.Execution.{ExecutionHandle, ExecutionError, is_terminal}
use teti_bot.Callability.Registry.{
  StoreState, Env, validate_store_state, mutate, ran, saved, with_handle, transition, transitioned,
  has_ended, is_current_handle,
}
use teti_bot.Callability.Registry.Lookup.{
  IsValid, find_task, with_epoch, find_current_lem, find-replace_first,
}
use teti_bot.Callability.Registry.Control.{
  Ending, finish, ending_state, terminal_message, is_current, is_running,
}

pub mutate-ok :
    {A : Type 0} (env : Env) (operation : StoreState → Result ExecutionError (A × StoreState))
    (state s' : StoreState) (a : A)
    → mutate env operation state ≡ (ok a, s')
    → (operation state ≡ ok (a, s')) × IsValid env s'
unfolding mutate
mutate-ok {A} env operation state s' a h = by_run (operation state) h
  where
    by_save :
        (new : StoreState) (b : A) (v : Result ExecutionError (Unit {0}))
        → saved v b state new ≡ (ok a, s')
        → (v ≡ ok tt) × (b ≡ a) × (new ≡ s')
    by_save new b (ok _) k = (refl, cc, cc)
    by_save new b (err e) k = cc

    by_run :
        (r : Result ExecutionError (A × StoreState))
        → ran env r state ≡ (ok a, s')
        → (r ≡ ok (a, s')) × IsValid env s'
    by_run (ok (b, new)) k =
        let (v, same, left) = by_save new b (validate_store_state env new) k in
        (rw (same, left) refl, subst (IsValid env) left v)
    by_run (err e) k = cc

with_handle-true :
    (test declines : ExecutionHandle → Bool) (change : ExecutionHandle → ExecutionHandle)
    (state s' : StoreState) (o : Option ExecutionHandle)
    → with_handle test declines change state o ≡ ok (true, s')
    → (handle : ExecutionHandle) × (o ≡ some handle)
      × (declines handle ≡ false)
      × (s' ≡ record state { handles = replace_first test (change handle) state.handles })
with_handle-true test declines change state s' none h = cc
with_handle-true test declines change state s' (some handle) h =
    elim (Bool-cases (declines handle)) [
      | inl e ↦ absurd (ground arith)
      | inr e ↦ (handle, refl, e, ground arith)
    ]

with_epoch-some :
    (epoch : ℕ) (o : Option ExecutionHandle) {h : ExecutionHandle}
    → with_epoch epoch o ≡ some h
    → (o ≡ some h) × (h.execution_epoch ≡ epoch)
with_epoch-some epoch none r = cc
with_epoch-some epoch (some k) {h} r = elim (Bool-cases (k.execution_epoch == epoch)) [
  | inl e ↦ ground arith
  | inr e ↦ absurd (ground arith)
]

module _ (env : Env) (now : ℕ) (task_id : String) (epoch : ℕ) (ending : Ending)
    (message : Option String) (state s' : StoreState) where
  -- What `finish` makes of the handle that it finds.
  abbrev pub ended_handle : ExecutionHandle → ExecutionHandle
  ended_handle h =
      transitioned env now (ending_state ending) none (or_else message (terminal_message ending)) h

  ended : (e : Ending) → is_terminal (ending_state e) ≡ true
  unfolding ending_state
  ended Ending.completed = refl
  ended Ending.failed = refl
  ended Ending.canceled = refl

  IsFinished : ExecutionHandle → Type 0
  IsFinished h =
      (find_task task_id state ≡ some h)
      × (h.execution_epoch ≡ epoch)
      × (has_ended h ≡ false)
      × (find (is_current_handle task_id epoch) state.handles ≡ some h)
      × (s' ≡ record state {
        handles = replace_first (is_current_handle task_id epoch) (ended_handle h) state.handles;
      })
      × IsValid env s'

  finish-IsFinished :
      IsValid env state
      → finish env now task_id epoch ending message state ≡ (ok true, s')
      → (h : ExecutionHandle) × IsFinished h
  unfolding finish transition IsFinished
  finish-IsFinished valid run =
      let (r, v) = mutate-ok env _ state s' true run in
      let (h, found, going, left) =
        with_handle-true (is_current_handle task_id epoch) has_ended ended_handle state s' _ r in
      let (there, same) =
        with_epoch-some epoch (find_task task_id state)
          (sym (find_current_lem env task_id epoch state valid) ∙ found) in
      (h, (there, same, going, found, left, v))

  -- A `finish` of a valid state that returns `true` found the task's handle running under the epoch. In the state that
  -- it leaves, which is valid, the task's handle is that one, ended, and no epoch of the task is
  -- current any more.
  pub finish_lem :
      IsValid env state
      → finish env now task_id epoch ending message state ≡ (ok true, s')
      → (later : ℕ)
      → (h : ExecutionHandle) × (find_task task_id state ≡ some h)
        × (h.execution_epoch ≡ epoch)
        × (has_ended h ≡ false)
        × (find_task task_id s' ≡ some (ended_handle h))
        × IsValid env s'
        × (is_current task_id later s' ≡ false)
  unfolding is_current transitioned IsFinished
  finish_lem valid run later =
      let (h, finished) = finish-IsFinished valid run in
      let (there, same, going, found, left, v) = finished in
      let own : is_current_handle task_id epoch (ended_handle h) ≡ true =
        find-test (is_current_handle task_id epoch) state.handles found in
      let put : find (is_current_handle task_id epoch) s'.handles ≡ some (ended_handle h) =
        rw left (
          find-replace_first (is_current_handle task_id epoch) (ended_handle h) state.handles found
            own) in
      let stored =
        (with_epoch-some epoch (find_task task_id s')
          (sym (find_current_lem env task_id epoch s' v) ∙ put)).0 in
      let stops : is_running (with_epoch later (some (ended_handle h))) ≡ false =
        elim (Bool-cases ((ended_handle h).execution_epoch == later)) [
          | inl e ↦ rw e (rw (ended ending) refl)
          | inr e ↦ rw e refl
        ] in
      (
        h,
        there,
        same,
        going,
        stored,
        v,
        ap is_running (find_current_lem env task_id later s' v)
            ∙ (ap (λ o. is_running (with_epoch later o)) stored ∙ stops),
      )
