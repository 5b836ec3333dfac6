-- ===== src/Callability/Registry/Pruning.antt =====
-- execution-store.ts: `pruneHandles` removes ended executions only, so the handle that `prepare` has
-- just put in stays.
use teti_bot.Base.{
  String, ◌≡◌, refl, sym, ◌∙◌, ◌≢◌, inl, inr, true, false, not, Option, none, some, List, [], ◌∷◌,
  ◌++◌, arith, number_equality, text_equality, ok, All, Bool-cases, eq_iff, subst,
}
use teti_bot.Base.{
  find, filter, replace_first, All-filter, All-filter_test, All-map, All-map₂, All-append, find-All,
  find-test, leb, length, fail_if, >>-eq-ok,
}
use teti_bot.Callability.Execution.{ExecutionHandle, ExecutionError, validate_handle}
use teti_bot.Callability.Registry.{
  StoreState, Env, has_task, has_ended, validate_handles, max_execution_handles,
}
use teti_bot.Callability.Registry.Prepare.{
  insert_by_time, sort_by_time, remove_task, drop_ended, updated_time, prune_handles, pruned_to,
  put_handle,
}
use teti_bot.Callability.Registry.Lookup.{find_task, seen_apart, find-replace_first}

module _ (id : String) where
  abbrev pub IsOther : ExecutionHandle → Type 0
  IsOther x = x.task_id ≢ id

  IsOther-of_test : (x : ExecutionHandle) → has_task id x ≡ false → IsOther x
  IsOther-of_test x h = ground (arith, eq_iff x.task_id id)

  find-remove_task :
      (t : String) (hs : List ExecutionHandle)
      → t ≢ id
      → find (has_task id) (remove_task t hs) ≡ find (has_task id) hs
  unfolding remove_task
  find-remove_task t [] h = refl
  find-remove_task t (x ∷ xs) h =
      ground (arith, eq_iff x.task_id t, eq_iff x.task_id id, find-remove_task t xs h)

  find-drop_ended :
      (xs hs : List ExecutionHandle)
      → All IsOther xs
      → find (has_task id) (drop_ended xs hs) ≡ find (has_task id) hs
  unfolding drop_ended
  find-drop_ended [] hs h = refl
  find-drop_ended (x ∷ xs) hs (p, h) = elim (Bool-cases (leb (length hs) max_execution_handles)) [
    | inl e ↦ rw e refl
    | inr e ↦
        rw e (find-drop_ended xs (remove_task x.task_id hs) h ∙ find-remove_task x.task_id hs p)
  ]

  All-insert_by_time :
      (env : Env) (x : ExecutionHandle) (xs : List ExecutionHandle)
      → IsOther x
      → All IsOther xs
      → All IsOther (insert_by_time env x xs)
  unfolding insert_by_time
  All-insert_by_time env x [] p h = (p, tt)
  All-insert_by_time env x (y ∷ ys) p (q, h) =
      elim (Bool-cases (leb (updated_time env x) (updated_time env y))) [
        | inl e ↦ rw e (p, (q, h))
        | inr e ↦ rw e (q, All-insert_by_time env x ys p h)
      ]

  All-sort_by_time :
      (env : Env) (xs : List ExecutionHandle) → All IsOther xs → All IsOther (sort_by_time env xs)
  unfolding sort_by_time
  All-sort_by_time env [] h = tt
  All-sort_by_time env (x ∷ xs) (p, h) =
      All-insert_by_time env x (sort_by_time env xs) p (All-sort_by_time env xs h)

  abbrev OtherIfEnded : ExecutionHandle → Type 0
  OtherIfEnded x = has_ended x ≡ true → x.task_id ≢ id

  ended-IsOther :
      (xs : List ExecutionHandle) → All OtherIfEnded xs → All IsOther (filter has_ended xs)
  ended-IsOther xs h =
      All-map₂ (λ x other ended. other ended) (filter has_ended xs)
        (All-filter OtherIfEnded has_ended xs h) (All-filter_test has_ended xs)

  module _ (env : Env) (handle : ExecutionHandle) (going : has_ended handle ≡ false) where
    others : (hs : List ExecutionHandle) → find (has_task id) hs ≡ none → All OtherIfEnded hs
    others hs h = All-map (λ x e ended. IsOther-of_test x e) hs (find-All (has_task id) hs h)

    replaced :
        (seen : List String) (hs : List ExecutionHandle)
        → validate_handles env seen hs ≡ ok tt
        → All OtherIfEnded (replace_first (has_task id) handle hs)
    unfolding validate_handles
    replaced seen [] h = tt
    replaced seen (x ∷ xs) h =
        let (a, b) = >>-eq-ok (validate_handle env.parse x) _ h in
        let (c, d) = >>-eq-ok (fail_if _ ExecutionError.invalid_store) _ b in
        elim (Bool-cases (has_task id x)) [
          | inl e ↦ rw e (
            λ ended. absurd cc,
            others xs (seen_apart env id (x.task_id ∷ seen) xs d (rw e refl)),
          )
          | inr e ↦ rw e (λ ended. IsOther-of_test x e, replaced (x.task_id ∷ seen) xs d)
        ]

    put-OtherIfEnded :
        (hs : List ExecutionHandle) (previous : Option ExecutionHandle)
        → validate_handles env [] hs ≡ ok tt
        → find (has_task id) hs ≡ previous
        → All OtherIfEnded (put_handle handle previous hs)
    put-OtherIfEnded hs none v h =
        All-append OtherIfEnded hs (handle ∷ []) (others hs h) (λ ended. absurd cc, tt)
    put-OtherIfEnded hs (some p) v h =
        let same = (eq_iff p.task_id id).0 (find-test (has_task id) hs h) in
        subst (λ i. All OtherIfEnded (replace_first (has_task i) handle hs)) (sym same)
          (replaced [] hs v)

    find-put :
        (hs : List ExecutionHandle) (previous : Option ExecutionHandle)
        → has_task id handle ≡ true
        → find (has_task id) hs ≡ previous
        → find (has_task id) (put_handle handle previous hs) ≡ some handle
    find-put hs none own h = find-push hs own h
      where
        find-push :
            (xs : List ExecutionHandle)
            → has_task id handle ≡ true
            → find (has_task id) xs ≡ none
            → find (has_task id) (xs ++ handle ∷ []) ≡ some handle
        find-push [] own k = rw own refl
        find-push (x ∷ xs) own k = elim (Bool-cases (has_task id x)) [
          | inl e ↦ absurd (ground arith)
          | inr e ↦ rw e (find-push xs own (ground arith))
        ]
    find-put hs (some p) own h =
        let same = (eq_iff p.task_id id).0 (find-test (has_task id) hs h) in
        subst (λ i. find (has_task id) (replace_first (has_task i) handle hs) ≡ some handle)
          (sym same) (find-replace_first (has_task id) handle hs h own)

    pruned_to-handles :
        (hs : List ExecutionHandle) (state s' : StoreState)
        → pruned_to hs state ≡ ok s'
        → s'.handles ≡ hs
    unfolding pruned_to
    pruned_to-handles hs state s' h =
        let (a, b) =
          >>-eq-ok
            (fail_if (not (leb (length hs) max_execution_handles))
              ExecutionError.capacity_exhausted)
            _ h in
        cc

    -- Pruning keeps the handle that was put in.
    pub find-prune_handles :
        (state s' : StoreState) (previous : Option ExecutionHandle)
        → validate_handles env [] state.handles ≡ ok tt
        → has_task id handle ≡ true
        → find_task id state ≡ previous
        → prune_handles env (record state { handles = put_handle handle previous state.handles })
          ≡ ok s'
        → find_task id s' ≡ some handle
    unfolding prune_handles
    find-prune_handles state s' previous v own h k =
        let put = put_handle handle previous state.handles in
        let there = find-put state.handles previous own h in
        elim (Bool-cases (leb (length put) max_execution_handles)) [
          | inl e ↦ let same : s'.handles ≡ put = ground arith in rw same there
          | inr e ↦
              let ended = sort_by_time env (filter has_ended put) in
              let left = drop_ended ended put in
              let same : s'.handles ≡ left =
                pruned_to-handles left (record state { handles = put }) s' (ground arith) in
              rw same (
                find-drop_ended ended put (
                  All-sort_by_time env _
                    (ended-IsOther put (put-OtherIfEnded state.handles previous v h)))
                ∙ there)
        ]
