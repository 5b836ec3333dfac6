-- ===== src/Callability/Registry.antt =====
-- apps/desktop/lifecycle-sidecar/runtime/callable/execution-store.ts: `DurableExecutionRegistry`, whose
-- state is what its store holds. Each operation loads the state, works on it and saves it, one at a
-- time; one that throws, or whose result the store refuses, leaves the stored state as it was. The
-- clock's reading is an argument, and what the registry takes from its surroundings is `Env`.
pub mod Control
pub mod Prepare
pub mod Lookup
pub mod Fencing
pub mod Endings
pub mod Pruning
pub mod Resumable
pub mod Prepared
pub mod Reconciled
pub mod Refused
mod Tests
use teti_bot.Base.{
  ℕ, zero, suc, ◌+◌, ◌-◌, ◌≤◌, ◌<◌, String, ◌≡◌, refl, sym, ap, ◌∙◌, ◌≢◌, ◌↔◌, ◌⊎◌, inl, inr, Bool,
  true, false, not, ◌&&◌, ◌||◌, Option, none, some, List, [], ◌∷◌, ◌++◌, map, arith, ◌==◌, ◌!=◌,
  number_equality, text_equality, if◌then◌else◌, Result, ok, err, ◌>>=◌, ◌>>◌, All, Bool-cases,
  eq_iff,
}
use teti_bot.Base.{
  find, filter, any, all, replace_first, length, is_some, or_else, codes, leb, max_safe_integer,
  fail_if,
}
use teti_bot.Callability.Execution.{
  ExecutionError, ConnectorCapabilities, ExecutionSemantics, ProgressState, ExecutionProgress,
  ResumeCapability, ExecutionHandle, execution_handle_schema_version, is_checkpoint_restart,
  is_terminal, validate_handle,
}

pub record IntegrityRecord : Type 0 where
  pub task_id : String
  pub captured_execution_epoch : ℕ
  pub checkpoint_ref : String
  pub sha256 : String

pub record StoreState : Type 0 where
  pub handles : List ExecutionHandle
  pub integrity : List IntegrityRecord

-- `Date.parse`, `toISOString` of a time in milliseconds, the lease duration, and the digest of the file
-- that a checkpoint reference resolves to inside the checkpoint root (`none` outside it, or unreadable).
pub record Env : Type 0 where
  pub parse : String → Option ℕ
  pub iso : ℕ → String
  pub lease_ms : ℕ
  pub digest : String → Option String

pub record PrepareInput : Type 0 where
  pub task_id : String
  pub workspace_id : String
  pub child_agent_id : String
  pub connector_id : String
  pub resume : Bool

abbrev pub max_execution_handles : ℕ
max_execution_handles = 512

abbrev pub has_task : String → ExecutionHandle → Bool
has_task task_id handle = handle.task_id == task_id

-- The test of `currentHandle`.
abbrev pub is_current_handle : String → ℕ → ExecutionHandle → Bool
is_current_handle task_id epoch handle =
    handle.task_id == task_id && handle.execution_epoch == epoch

abbrev is_hex : ℕ → Bool
is_hex c = (leb b'a' c && leb c b'f') || (leb b'0' c && leb c b'9')

-- `/^sha256:[a-f0-9]{64}$/`.
is_digest : List ℕ → Bool
is_digest (s ∷ h ∷ a ∷ two ∷ five ∷ six ∷ colon ∷ hex) =
    s == b's'
    && h == b'h'
    && a == b'a'
    && two == b'2'
    && five == b'5'
    && six == b'6'
    && colon == b':'
    && length hex == 64
    && all is_hex hex
is_digest _ = false

abbrev pub same_text : Option String → String → Bool
same_text none s = false
same_text (some t) s = t == s

-- Whether a handle still has the checkpoint that an integrity record is about.
abbrev pub vouches : IntegrityRecord → ExecutionHandle → Bool
vouches r handle =
    handle.task_id == r.task_id
    && same_text handle.checkpoint_ref r.checkpoint_ref
    && is_checkpoint_restart handle.resume_capability

abbrev vouched : IntegrityRecord → Option ExecutionHandle → Bool
vouched r none = false
vouched r (some handle) = vouches r handle

unfoldable pub validate_handles :
    Env → (seen : List String) → List ExecutionHandle → Result ExecutionError (Unit {0})
validate_handles env seen [] = ok tt
validate_handles env seen (handle ∷ handles) = do
  validate_handle env.parse handle
  fail_if (any (λ id. id == handle.task_id) seen) ExecutionError.invalid_store
  validate_handles env (handle.task_id ∷ seen) handles

unfoldable pub validate_integrity :
    List ExecutionHandle
    → (seen : List String) → List IntegrityRecord
    → Result ExecutionError (Unit {0})
unfolding is_digest
validate_integrity handles seen [] = ok tt
validate_integrity handles seen (r ∷ rs) = do
  fail_if
      (not (
        leb r.captured_execution_epoch max_safe_integer
        && leb 1 r.captured_execution_epoch
        && is_digest (codes r.sha256)
        && not (any (λ id. id == r.task_id) seen)))
      ExecutionError.invalid_store
  fail_if (not (vouched r (find (has_task r.task_id) handles))) ExecutionError.invalid_store
  validate_integrity handles (r.task_id ∷ seen) rs

unfoldable pub validate_store_state : Env → StoreState → Result ExecutionError (Unit {0})
validate_store_state env state = do
  fail_if
      (not (
        leb (length state.handles) max_execution_handles
        && leb (length state.integrity) max_execution_handles))
      ExecutionError.invalid_store
  validate_handles env [] state.handles
  validate_integrity state.handles [] state.integrity

-- `MemoryExecutionHandleStore.save` at the end of `mutate`: the result and the state stored after it.
abbrev saved :
    {A : Type 0}
    → Result ExecutionError (Unit {0})
    → A
    → (old new : StoreState) → Result ExecutionError A × StoreState
saved (ok _) a old new = (ok a, new)
saved (err e) a old new = (err e, old)

abbrev ran :
    {A : Type 0}
    → Env
    → Result ExecutionError (A × StoreState)
    → StoreState
    → Result ExecutionError A × StoreState
ran env (ok (a, new)) old = saved (validate_store_state env new) a old new
ran env (err e) old = (err e, old)

unfoldable pub mutate :
    {A : Type 0}
    → Env
    → (StoreState → Result ExecutionError (A × StoreState))
    → StoreState
    → Result ExecutionError A × StoreState
mutate env operation state = ran env (operation state) state

-- An operation on the one handle that a test finds: `false` where there is none or where it declines.
abbrev pub with_handle :
    (ExecutionHandle → Bool)
    → (ExecutionHandle → Bool)
    → (ExecutionHandle → ExecutionHandle)
    → StoreState
    → Option ExecutionHandle
    → Result ExecutionError (Bool × StoreState)
with_handle test declines change state none = ok (false, state)
with_handle test declines change state (some handle) =
    if declines handle
    then ok (false, state)
    else ok (true, record state { handles = replace_first test (change handle) state.handles })

abbrev pub has_ended : ExecutionHandle → Bool
has_ended handle = is_terminal handle.progress.state

unfoldable pub lease_expiry : Env → ℕ → String
lease_expiry env now = env.iso (now + env.lease_ms)

abbrev is_completed : ProgressState → Bool
is_completed ProgressState.completed = true
is_completed _ = false

-- What `transition` makes of the current handle; `provider` is `none` where the option is left out.
unfoldable pub transitioned :
    Env
    → ℕ
    → ProgressState
    → (provider : Option (Option String)) → (message : String) → ExecutionHandle
    → ExecutionHandle
unfolding lease_expiry
transitioned env now next provider message handle = record handle {
  provider_execution_id = or_else provider handle.provider_execution_id;
  progress = record {
    state = next;
    completed_units = if is_completed next then some 1 else handle.progress.completed_units;
    total_units = if is_completed next then some 1 else handle.progress.total_units;
    message = some message;
    updated_at = env.iso now;
  };
  lease_expires_at = if is_terminal next then env.iso now else lease_expiry env now;
}

module _ (env : Env) (now : ℕ) where
  unfoldable pub transition :
      (task_id : String) (epoch : ℕ)
      → ProgressState
      → Option (Option String)
      → (message : String) → StoreState
      → Result ExecutionError Bool × StoreState
  transition task_id epoch next provider message = mutate env λ state.
      with_handle (is_current_handle task_id epoch) has_ended
        (transitioned env now next provider message) state
        (find (is_current_handle task_id epoch) state.handles)

  unfoldable pub mark_running :
      (task_id : String) (epoch : ℕ)
      → Option String
      → StoreState
      → Result ExecutionError Bool × StoreState
  mark_running task_id epoch provider =
      transition task_id epoch ProgressState.running (some provider) "本机 Child Agent 正在执行"

  unfoldable pub renew :
      (task_id : String) (epoch : ℕ) → StoreState → Result ExecutionError Bool × StoreState
  renew task_id epoch = mutate env λ state.
      with_handle (is_current_handle task_id epoch) has_ended
        (λ handle. record handle { lease_expires_at = lease_expiry env now }) state
        (find (is_current_handle task_id epoch) state.handles)
