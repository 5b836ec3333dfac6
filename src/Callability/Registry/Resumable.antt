-- ===== src/Callability/Registry/Resumable.antt =====
-- execution-store.ts: what it takes to resume an execution, said without the code's tests of it.
use teti_bot.Callability.Execution.{
  ExecutionHandle, ConnectorCapabilities, ExecutionSemantics, ProgressState, ResumeCapability,
  is_checkpoint_restart,
}
use teti_bot.Callability.Registry.{IntegrityRecord, StoreState, Env, same_text}
use teti_bot.Callability.Registry.Prepare.{
  may_resume, is_checkpoint_intact, is_pure, is_resumable_state, digest_matches,
}
use teti_bot.Base.{
  String, ◌≡◌, refl, sym, ap, ◌⊎◌, inl, inr, Bool, true, ◌&&◌, Option, none, some, List, [], ◌∷◌,
  arith, ◌==◌, number_equality, text_equality, Bool-cases, eq_iff, Any, find, is_some, subst,
}

pub record IsResumable (capabilities : ConnectorCapabilities) (semantics : ExecutionSemantics)
    (p : ExecutionHandle) : Type 0 where
  pub restart : p.resume_capability ≡ ResumeCapability.checkpoint_restart
  pub checkpoint : (ref : String) × (p.checkpoint_ref ≡ some ref)
  pub stopped :
      (p.progress.state ≡ ProgressState.interrupted) ⊎ (p.progress.state ≡ ProgressState.failed)
  pub resumes : capabilities.supports_resume ≡ true
  pub checkpoints : capabilities.supports_checkpoint ≡ true
  pub pure : semantics ≡ ExecutionSemantics.workspace_pure_compute

-- An integrity record of the task and the checkpoint has the digest that the checkpoint's file has.
abbrev pub HasDigest : Env → StoreState → ExecutionHandle → Type 0
HasDigest env state p =
    Any
      (λ r.
        (r.task_id ≡ p.task_id)
        × (p.checkpoint_ref ≡ some r.checkpoint_ref)
        × (env.digest r.checkpoint_ref ≡ some r.sha256))
      state.integrity

restart-is :
    (c : ResumeCapability)
    → is_checkpoint_restart c ≡ true
    → c ≡ ResumeCapability.checkpoint_restart
restart-is ResumeCapability.checkpoint_restart h = refl
restart-is ResumeCapability.cannot_resume h = cc

some-is : (o : Option String) → is_some o ≡ true → (a : String) × (o ≡ some a)
some-is none h = cc
some-is (some a) h = (a, refl)

pure-is :
    (s : ExecutionSemantics) → is_pure s ≡ true → s ≡ ExecutionSemantics.workspace_pure_compute
pure-is ExecutionSemantics.workspace_pure_compute h = refl
pure-is ExecutionSemantics.external_side_effects_possible h = cc

resumable-is :
    (s : ProgressState)
    → is_resumable_state s ≡ true
    → (s ≡ ProgressState.interrupted) ⊎ (s ≡ ProgressState.failed)
resumable-is ProgressState.interrupted h = inl refl
resumable-is ProgressState.failed h = inr refl
resumable-is ProgressState.completed h = cc
resumable-is ProgressState.canceled h = cc
resumable-is ProgressState.queued h = cc
resumable-is ProgressState.running h = cc
resumable-is ProgressState.paused h = cc
resumable-is ProgressState.canceling h = cc

pub may_resume-IsResumable :
    (capabilities : ConnectorCapabilities) (semantics : ExecutionSemantics) (p : ExecutionHandle)
    → may_resume capabilities semantics p ≡ true
    → IsResumable capabilities semantics p
unfolding may_resume
may_resume-IsResumable capabilities semantics p may = record {
  restart = restart-is p.resume_capability (ground arith);
  checkpoint = some-is p.checkpoint_ref (ground arith);
  stopped = resumable-is p.progress.state (ground arith);
  resumes = ground arith;
  checkpoints = ground arith;
  pure = pure-is semantics (ground arith);
}

same_text-is : (o : Option String) (s : String) → same_text o s ≡ true → o ≡ some s
same_text-is none s h = cc
same_text-is (some t) s h = ap some ((eq_iff t s).0 h)

find-Any :
    {A : Type 0} (p : A → Bool) (xs : List A) (x : A)
    → find p xs ≡ some x
    → Any (λ y. (p y ≡ true) × (y ≡ x)) xs
find-Any p [] x h = cc
find-Any p (y ∷ ys) x h = elim (Bool-cases (p y)) [
  | inl e ↦ inl (e, ground arith)
  | inr e ↦ inr (find-Any p ys x (ground arith))
]

Any-map :
    {A : Type 0} {P Q : A → Type 0} → ((x : A) → P x → Q x) → (xs : List A) → Any P xs → Any Q xs
Any-map f [] h = h
Any-map f (x ∷ xs) (inl p) = inl (f x p)
Any-map f (x ∷ xs) (inr h) = inr (Any-map f xs h)

module _ (env : Env) (state : StoreState) (p : ExecutionHandle) where
  abbrev is_record : IntegrityRecord → Bool
  is_record r = r.task_id == p.task_id && same_text p.checkpoint_ref r.checkpoint_ref

  digest_matches-is :
      (o : Option String) (r : IntegrityRecord)
      → o ≡ some r.checkpoint_ref
      → digest_matches env o (some r) ≡ true
      → env.digest r.checkpoint_ref ≡ some r.sha256
  digest_matches-is none r named h = cc
  digest_matches-is (some ref) r named h =
      let same : ref ≡ r.checkpoint_ref = cc in
      subst (λ x. env.digest x ≡ some r.sha256) same
        (same_text-is (env.digest ref) r.sha256 (ground arith))

  found-HasDigest :
      (o : Option IntegrityRecord)
      → find is_record state.integrity ≡ o
      → digest_matches env p.checkpoint_ref o ≡ true
      → HasDigest env state p
  found-HasDigest none found h = elim (no_match p.checkpoint_ref h) [ ]
    where
      no_match : (o : Option String) → digest_matches env o none ≡ true → ⊥
      no_match none h = cc
      no_match (some ref) h = cc
  found-HasDigest (some r) found h =
      Any-map
        (λ y k.
          let (passes, same) = k in
          let task : (y.task_id == p.task_id) ≡ true = ground arith in
          let named : p.checkpoint_ref ≡ some y.checkpoint_ref =
            same_text-is p.checkpoint_ref y.checkpoint_ref (ground arith) in
          (
            (eq_iff y.task_id p.task_id).0 task,
            named,
            digest_matches-is p.checkpoint_ref y named
                (subst (λ x. digest_matches env p.checkpoint_ref (some x) ≡ true) (sym same) h),
          ))
        state.integrity (find-Any is_record state.integrity r found)

pub is_checkpoint_intact-HasDigest :
    (env : Env) (state : StoreState) (p : ExecutionHandle)
    → is_checkpoint_intact env state p ≡ true
    → HasDigest env state p
unfolding is_checkpoint_intact
is_checkpoint_intact-HasDigest env state p h =
    found-HasDigest env state p (find (is_record env state p) state.integrity) refl h
