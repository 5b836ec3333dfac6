-- ===== src/LongHorizon/Session.antt =====
-- apps/desktop/lifecycle-sidecar/runtime/tasks/service.ts: the session's creation, its audit, its pauses
-- and its renewals. `now` is the time of the call in milliseconds, `parse` and `iso` are `Date.parse` and
-- `toISOString`, and `fresh` gives the id of an event by its number.
use teti_bot.LongHorizon.{
  pending_approval, working, input_required, paused, completed, failed, canceled, expired,
  lease_expired, session_terminal, host, local_user, LongHorizonState, SessionAction, SessionError,
  SessionPhase, SessionActor, pause_requested, renewal_limit, renewal_unavailable, session_created,
  SessionEvent, maximum_renewal_ms, maximum_session_events, maximum_stages, pause_unavailable,
  audit_full, maximum_renewals, maximum_lifetime_ms, renewed,
}
use teti_bot.Base.{
  ℕ, zero, suc, ◌+◌, String, Bool, true, false, not, ◌||◌, Option, none, some, [], ◌∷◌, ◌++◌,
  number_equality, text_equality, if◌then◌else◌, Result, ok, err, ◌>>=◌, ◌>>◌,
}
use teti_bot.Base.{fail_if, leb, ltb, length}
use teti_bot.Callability.Execution.{ProgressState}

pub record Clock : Type 0 where
  pub parse : String → Option ℕ
  pub iso : ℕ → String
  pub fresh : ℕ → String

abbrev pub event_of :
    Clock
    → SessionAction
    → SessionActor
    → Option ℕ
    → Option ℕ
    → (timestamp : String) → (before : ℕ) → SessionEvent
event_of clock action actor stage revision timestamp before = record {
  event_id = clock.fresh (suc before);
  sequence = suc before;
  action = action;
  actor = actor;
  stage_index = stage;
  timestamp = timestamp;
  child_agent_id = none;
  artifact_id = none;
  input_id = none;
  workspace_revision = revision;
  safe_error_code = none;
}

unfoldable pub append_event :
    Clock
    → SessionAction
    → SessionActor
    → Option ℕ
    → Option ℕ
    → (timestamp : String) → LongHorizonState
    → Result SessionError LongHorizonState
append_event clock action actor stage revision timestamp session = do
  fail_if (leb maximum_session_events (length session.audit)) audit_full
  ok (record session {
    audit =
        session.audit
        ++ (event_of clock action actor stage revision timestamp (length session.audit) ∷ []);
    updated_at = timestamp;
  })

-- createLongHorizonState, for a request that expires at the given time.
unfoldable pub create_session :
    Clock → (expires_at : String) → (now : ℕ) → Result SessionError LongHorizonState
create_session clock expires_at now =
    append_event clock session_created host none (some 1) (clock.iso now) (record {
      schema_version = 1;
      phase = pending_approval;
      current_stage_index = 0;
      workspace_revision = 1;
      progress = record {
        state = ProgressState.queued;
        completed_units = some 0;
        total_units = some maximum_stages;
        message = some "等待接收端批准";
        updated_at = clock.iso now;
      };
      continuation_expires_at = expires_at;
      renewal_count = 0;
      pause_requested = false;
      pending_input = none;
      input_request = none;
      available_child_agents = [];
      stages = [];
      checkpoints = [];
      artifacts = [];
      audit = [];
      updated_at = clock.iso now;
    })

abbrev pub touched : String → LongHorizonState → LongHorizonState
touched timestamp session = record session { updated_at = timestamp }

-- The branches of pauseLongHorizon, by the phase of the session.
abbrev pub paused_from :
    Clock
    → (timestamp : String) → LongHorizonState
    → SessionPhase
    → Result SessionError LongHorizonState
paused_from clock timestamp session working =
    append_event clock pause_requested local_user (some session.current_stage_index) none timestamp
      (record session { pause_requested = true })
paused_from clock timestamp session input_required =
    append_event clock paused local_user (some session.current_stage_index) none timestamp
      (record session { phase = paused })
paused_from clock timestamp session paused = ok session
paused_from clock timestamp session _ = err pause_unavailable

-- `Date.parse(continuationExpiresAt) <= now`, which is false where that is no time.
abbrev pub is_past : (now : ℕ) → Option ℕ → Bool
is_past now none = false
is_past now (some time) = leb time now

abbrev pub is_terminal_phase : SessionPhase → Bool
is_terminal_phase completed = true
is_terminal_phase failed = true
is_terminal_phase canceled = true
is_terminal_phase expired = true
is_terminal_phase _ = false

-- requireIncomingLongHorizon, for a session that was found. What it changes where the lease has expired is not
-- saved.
unfoldable pub require_incoming :
    Clock → (now : ℕ) → LongHorizonState → Result SessionError (Unit {0})
require_incoming clock now session = do
  fail_if (is_past now (clock.parse session.continuation_expires_at)) lease_expired
  fail_if (is_terminal_phase session.phase) session_terminal

unfoldable pub pause_session :
    Clock → (now : ℕ) → LongHorizonState → Result SessionError LongHorizonState
pause_session clock now session = do
  require_incoming clock now session
  new ← paused_from clock (clock.iso now) session session.phase
  ok (touched (clock.iso now) new)

-- `["input_required", "paused"].includes(phase)`.
abbrev pub is_boundary : SessionPhase → Bool
is_boundary input_required = true
is_boundary paused = true
is_boundary _ = false

-- `Math.max`.
abbrev pub later : (a b : ℕ) → ℕ
later a b = if leb a b then b else a

abbrev pub nonzero : ℕ → Option ℕ
nonzero zero = none
nonzero (suc n) = some (suc n)

abbrev pub require : Option ℕ → Result SessionError ℕ
require none = err renewal_limit
require (some n) = ok n

-- `nextExpiry > absoluteLimit`, false where the creation is no time.
abbrev pub exceeds_lifetime : (created : Option ℕ) → (next : ℕ) → Bool
exceeds_lifetime none next = false
exceeds_lifetime (some created) next = ltb (created + maximum_lifetime_ms) next

-- renewLongHorizon, for a request created at the given time. An expiry that is no time throws in
-- `toISOString`.
unfoldable pub renew_session :
    Clock
    → (created_at : String) → (now ttl : ℕ) → LongHorizonState
    → Result SessionError LongHorizonState
renew_session clock created_at now ttl session = do
  require_incoming clock now session
  fail_if (not (is_boundary session.phase)) renewal_unavailable
  fail_if
      (ltb ttl 60000 || ltb maximum_renewal_ms ttl || leb maximum_renewals session.renewal_count)
      renewal_limit
  current ← require (clock.parse session.continuation_expires_at)
  fail_if (exceeds_lifetime (clock.parse created_at) (later now current + ttl)) renewal_limit
  append_event clock renewed local_user (nonzero session.current_stage_index) none (clock.iso now)
      (record session {
        continuation_expires_at = clock.iso (later now current + ttl);
        renewal_count = session.renewal_count + 1;
      })
