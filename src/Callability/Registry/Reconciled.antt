-- ===== src/Callability/Registry/Reconciled.antt =====
-- execution-store.ts: `reconcile` after a restart.
use teti_bot.Base.{
  ℕ, String, ◌≡◌, refl, sym, ◌∙◌, ◌⊎◌, inl, inr, true, none, List, [], ◌∷◌, number_equality,
  text_equality, ok, Bool-cases,
}
use teti_bot.Base.{any, Any, eq_iff, subst, false, ◌==◌, arith}
use teti_bot.Callability.Execution.{is_terminal}
use teti_bot.Callability.Registry.{has_ended}
use teti_bot.Callability.Execution.{ExecutionHandle, ProgressState}
use teti_bot.Callability.Registry.{StoreState, Env}
use teti_bot.Callability.Registry.Control.{is_left, interrupted, stopped, reconcile_each, reconcile}
use teti_bot.Callability.Registry.Lookup.{IsValid}
use teti_bot.Callability.Registry.Endings.{mutate-ok}

-- The states of an execution that has ended.
abbrev pub HasEnded : ProgressState → Type 0
HasEnded ProgressState.completed = Unit
HasEnded ProgressState.failed = Unit
HasEnded ProgressState.canceled = Unit
HasEnded _ = ⊥

abbrev pub IsActive : List String → ExecutionHandle → Type 0
IsActive active h = Any (λ id. id ≡ h.task_id) active

-- The handle is stopped: interrupted, without a provider execution, and of the same task and epoch.
abbrev pub IsStopped : (before after : ExecutionHandle) → Type 0
IsStopped before after =
    (after.progress.state ≡ ProgressState.interrupted)
    × (after.provider_execution_id ≡ none)
    × (after.task_id ≡ before.task_id)
    × (after.execution_epoch ≡ before.execution_epoch)

-- A handle that has ended, or whose task is active, is left as it is. Every other one is stopped, and is one
-- of the handles `found`, in their order.
pub data Reconciles (active : List String)
    : (before after found : List ExecutionHandle) → Type 0 where
  no_handle : Reconciles active [] [] []
  left :
      {h : ExecutionHandle} {before after found : List ExecutionHandle}
      → HasEnded h.progress.state ⊎ IsActive active h
      → Reconciles active before after found
      → Reconciles active (h ∷ before) (h ∷ after) found
  stops :
      {h k : ExecutionHandle} {before after found : List ExecutionHandle}
      → (HasEnded h.progress.state → ⊥)
      → (IsActive active h → ⊥)
      → IsStopped h k
      → Reconciles active before after found
      → Reconciles active (h ∷ before) (k ∷ after) (k ∷ found)

terminal-HasEnded : (s : ProgressState) → is_terminal s ≡ true → HasEnded s
terminal-HasEnded ProgressState.completed h = tt
terminal-HasEnded ProgressState.failed h = tt
terminal-HasEnded ProgressState.canceled h = tt
terminal-HasEnded ProgressState.queued h = cc
terminal-HasEnded ProgressState.running h = cc
terminal-HasEnded ProgressState.paused h = cc
terminal-HasEnded ProgressState.interrupted h = cc
terminal-HasEnded ProgressState.canceling h = cc

open-HasEnded : (s : ProgressState) → is_terminal s ≡ false → HasEnded s → ⊥
open-HasEnded ProgressState.completed h k = cc
open-HasEnded ProgressState.failed h k = cc
open-HasEnded ProgressState.canceled h k = cc
open-HasEnded ProgressState.queued h k = k
open-HasEnded ProgressState.running h k = k
open-HasEnded ProgressState.paused h k = k
open-HasEnded ProgressState.interrupted h k = k
open-HasEnded ProgressState.canceling h k = k

any-Any : (x : String) (ids : List String) → any (λ id. id == x) ids ≡ true → Any (λ id. id ≡ x) ids
any-Any x [] h = cc
any-Any x (id ∷ ids) h = elim (Bool-cases (id == x)) [
  | inl e ↦ inl ((eq_iff id x).0 e)
  | inr e ↦ inr (any-Any x ids (ground arith))
]

Any-any : (x : String) (ids : List String) → Any (λ id. id ≡ x) ids → any (λ id. id == x) ids ≡ true
Any-any x [] h = elim (h tt) [ ]
Any-any x (id ∷ ids) (inl e) = rw ((eq_iff id x).1 e) refl
Any-any x (id ∷ ids) (inr h) = rw (Any-any x ids h) (ground arith)

left-cases :
    (active : List String) (h : ExecutionHandle)
    → is_left active h ≡ true
    → HasEnded h.progress.state ⊎ IsActive active h
left-cases active h e = elim (Bool-cases (has_ended h)) [
  | inl ended ↦ inl (terminal-HasEnded h.progress.state ended)
  | inr open_still ↦ inr (any-Any h.task_id active (ground arith))
]

module _ (env : Env) (now : ℕ) (active : List String) where
  reconcile_each-Reconciles :
      (hs : List ExecutionHandle)
      → Reconciles active hs
          (reconcile_each env now active hs).0
          (reconcile_each env now active hs).1
  unfolding reconcile_each interrupted stopped
  reconcile_each-Reconciles [] = no_handle
  reconcile_each-Reconciles (h ∷ hs) = elim (Bool-cases (is_left active h)) [
    | inl e ↦ rw e (left (left-cases active h e) (reconcile_each-Reconciles hs))
    | inr e ↦
        let open_still : has_ended h ≡ false = ground arith in
        let idle : any (λ id. id == h.task_id) active ≡ false = ground arith in
        rw e (
          stops (open-HasEnded h.progress.state open_still)
            (λ k. clash (sym (Any-any h.task_id active k) ∙ idle)) (refl, refl, refl, refl)
            (reconcile_each-Reconciles hs))
  ]
    where
      clash : true ≡ false → ⊥
      clash e = cc

  -- A `reconcile` that succeeds leaves every handle that has ended (completed, failed or canceled), or
  -- whose task is active, as it was, and makes every other one interrupted, without a provider execution
  -- and of the same task and epoch. It returns exactly those that it interrupted, in their order, and
  -- leaves a valid state.
  pub reconcile_lem :
      (state s' : StoreState) (found : List ExecutionHandle)
      → reconcile env now active state ≡ (ok found, s')
      → Reconciles active state.handles s'.handles found × IsValid env s'
  unfolding reconcile
  reconcile_lem state s' found h =
      let (run, valid) = mutate-ok env _ state s' found h in
      let same : (reconcile_each env now active state.handles).1 ≡ found = cc in
      let after : (reconcile_each env now active state.handles).0 ≡ s'.handles = cc in
      (
        subst (λ fs. Reconciles active state.handles s'.handles fs) same
            (subst
              (λ hs.
                Reconciles active state.handles hs (reconcile_each env now active state.handles).1)
              after (reconcile_each-Reconciles state.handles)),
        valid,
      )
