-- ===== src/Callability/Registry/Lookup.antt =====
-- execution-store.ts: what `find` and `currentHandle` find in the handles of a valid state.
use teti_bot.Base.{
  ℕ, String, ◌≡◌, refl, ap, ◌∙◌, inl, inr, Bool, true, false, Option, none, some, List, [], ◌∷◌,
  arith, ◌==◌, number_equality, text_equality, if◌then◌else◌, ok, Bool-cases, eq_iff, subst,
}
use teti_bot.Base.{find, replace_first, any, >>-eq-ok, fail_if}
use teti_bot.Callability.Execution.{ExecutionHandle, ExecutionError, validate_handle}
use teti_bot.Callability.Registry.{
  StoreState, Env, has_task, is_current_handle, validate_handles, validate_store_state,
}

abbrev pub IsValid : Env → StoreState → Type 0
IsValid env state = validate_store_state env state ≡ ok tt

abbrev pub find_task : String → StoreState → Option ExecutionHandle
find_task task_id state = find (has_task task_id) state.handles

abbrev pub with_epoch : ℕ → Option ExecutionHandle → Option ExecutionHandle
with_epoch epoch none = none
with_epoch epoch (some handle) = if handle.execution_epoch == epoch then some handle else none

fail_if-ok : {E : Type 0} (b : Bool) (e : E) → fail_if b e ≡ ok tt → b ≡ false
fail_if-ok true e h = cc
fail_if-ok false e h = refl

module _ (env : Env) (id : String) where
  pub seen_apart :
      (seen : List String) (hs : List ExecutionHandle)
      → validate_handles env seen hs ≡ ok tt
      → any (λ i. i == id) seen ≡ true
      → find (has_task id) hs ≡ none
  unfolding validate_handles
  seen_apart seen [] h k = refl
  seen_apart seen (x ∷ xs) h k =
      let (a, b) = >>-eq-ok (validate_handle env.parse x) _ h in
      let (c, d) =
        >>-eq-ok (fail_if (any (λ i. i == x.task_id) seen) ExecutionError.invalid_store) _ b in
      let unseen = fail_if-ok _ ExecutionError.invalid_store c in
      elim (Bool-cases (x.task_id == id)) [
        | inl e ↦
            let same = (eq_iff x.task_id id).0 e in
            let seen_it = subst (λ i. any (λ j. j == i) seen ≡ false) same unseen in cc
        | inr e ↦ rw e (seen_apart (x.task_id ∷ seen) xs d (rw (e, k) refl))
      ]

  -- In a list without duplicated tasks, the current handle is the task's, where the epoch is its own.
  pub find-current :
      (epoch : ℕ) (seen : List String) (hs : List ExecutionHandle)
      → validate_handles env seen hs ≡ ok tt
      → find (is_current_handle id epoch) hs ≡ with_epoch epoch (find (has_task id) hs)
  unfolding validate_handles
  find-current epoch seen [] h = refl
  find-current epoch seen (x ∷ xs) h =
      let (a, b) = >>-eq-ok (validate_handle env.parse x) _ h in
      let (c, d) =
        >>-eq-ok (fail_if (any (λ i. i == x.task_id) seen) ExecutionError.invalid_store) _ b in
      let rest = find-current epoch (x.task_id ∷ seen) xs d in
      elim (Bool-cases (x.task_id == id)) [
        | inl e ↦
            let gone = seen_apart (x.task_id ∷ seen) xs d (rw e refl) in
            let none_left : find (is_current_handle id epoch) xs ≡ none =
              rest ∙ ap (with_epoch epoch) gone in
            rw (e, none_left) refl
        | inr e ↦ rw e rest
      ]

  pub valid_handles :
      (state : StoreState) → IsValid env state → validate_handles env [] state.handles ≡ ok tt
  unfolding validate_store_state
  valid_handles state h =
      let (a, b) = >>-eq-ok (fail_if _ ExecutionError.invalid_store) _ h in
      let (c, d) = >>-eq-ok (validate_handles env [] state.handles) _ b in c

  pub find_current_lem :
      (epoch : ℕ) (state : StoreState)
      → IsValid env state
      → find (is_current_handle id epoch) state.handles ≡ with_epoch epoch (find_task id state)
  find_current_lem epoch state h = find-current epoch [] state.handles (valid_handles state h)

pub find-replace_first {ℓ} :
    {A : Type ℓ} (p : A → Bool) (y : A) (xs : List A) {x : A}
    → find p xs ≡ some x
    → p y ≡ true
    → find p (replace_first p y xs) ≡ some y
find-replace_first p y [] h k = cc
find-replace_first p y (z ∷ zs) {x} h k = elim (Bool-cases (p z)) [
  | inl e ↦ rw e (rw k refl)
  | inr e ↦ rw e (rw e (find-replace_first p y zs {x = x} (ground arith) k))
]
