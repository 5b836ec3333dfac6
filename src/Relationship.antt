-- ===== src/Relationship.antt =====
-- services/network: the errors of its client (errors.ts), the documents of relationships (types.ts) and the
-- compatibility of a server (compatibility.ts).
pub mod Store
pub mod Command
pub mod World
pub mod Service
pub mod Scan
pub mod Calls
pub mod Protocol
pub mod Keeps
pub mod Recovery
pub mod Scanned
pub mod Settled
pub mod Runs
pub mod Feed
mod Tests
use teti_bot.Base.{
  ℕ, zero, suc, ◌+◌, ◌-◌, ◌≤◌, ◌<◌, String, ◌≡◌, refl, sym, ap, ◌∙◌, ◌≢◌, ◌↔◌, ◌⊎◌, inl, inr, Bool,
  true, false, not, ◌&&◌, ◌||◌, Option, none, some, List, [], ◌∷◌, ◌++◌, map, arith, ◌==◌, ◌!=◌,
  number_equality, text_equality, if◌then◌else◌, Result, ok, err, ◌>>=◌, ◌>>◌, All, Bool-cases,
  eq_iff, fail_if, ltb, all,
}

pub data ErrorCode : Type 0 where
  network_unavailable network_timeout network_unauthorized network_client_revoked network_conflict
        network_invalid_response network_request_invalid network_request_rejected request_replayed
        idempotency_conflict presence_sequence_stale profile_revision_conflict
        relationship_transition_invalid relationship_blocked relationship_revision_conflict
        relay_not_found relay_unavailable relay_binding_not_found relay_binding_conflict
        mailbox_already_bound relay_binding_transition_invalid relay_binding_revision_conflict
        relay_binding_adoption_denied identity_not_found identity_already_exists
        relationship_not_found invite_expired invite_used rate_limited server_unavailable
        protocol_unsupported :
      ErrorCode

-- `TetiNetworkClientError`, by what the code branches on.
pub record ClientError : Type 0 where
  pub error_code : ErrorCode
  pub retryable : Bool

-- What is thrown: an error of the client, a record that a store refuses, or any other error, such as that
-- of a signal. `exhausted` is not thrown by the program: it is a loop whose fuel has run out.
pub data Fault : Type 0 where
  client_error : ClientError → Fault
  invalid_record other exhausted : Fault

-- `conflict` of relationship-service.ts.
abbrev pub conflict : Fault
conflict = client_error (record { error_code = network_conflict; retryable = false })

pub data RelationshipState : Type 0 where
  requested confirmed rejected blocked revoked : RelationshipState

pub data Direction : Type 0 where
  outgoing incoming : Direction

pub data BlockedBy : Type 0 where
  self peer : BlockedBy

pub record Document : Type 0 where
  pub schema_version : ℕ
  pub id : String
  pub revision : ℕ
  pub state : RelationshipState
  pub peer_teti_id : String
  pub requester_teti_id : String
  pub addressee_teti_id : String
  pub direction : Direction
  pub blocked_by : Option BlockedBy
  pub created_at : String
  pub updated_at : String
  pub state_changed_at : String

pub record RelationshipResult : Type 0 where
  pub document : Document
  pub etag : String

pub data Decision : Type 0 where
  allow deny : Decision

pub data Reason : Type 0 where
  in_state : RelationshipState → Reason
  not_found : Reason

pub record Authorization : Type 0 where
  pub peer_teti_id : String
  pub relationship_id : Option String
  pub relationship_revision : Option ℕ
  pub decision : Decision
  pub reason : Reason
  pub evaluated_at : String

-- A page of the snapshot, and a page of the changes with the relationship of each change.
pub record SnapshotPage : Type 0 where
  pub items : List Document
  pub base_checkpoint : String
  pub next_cursor : Option String

pub record ChangesPage : Type 0 where
  pub items : List Document
  pub checkpoint : String
  pub has_more : Bool

pub data Capability : Type 0 where
  public_directory identity client_authentication presence public_profile relationships
        relay_bindings invites :
      Capability

pub record Bootstrap : Type 0 where
  pub protocol_version : ℕ
  pub contract_revision : ℕ
  pub capabilities : Capability → Bool

abbrev protocol_version : ℕ
protocol_version = 1

abbrev minimum_contract_revision : ℕ
minimum_contract_revision = 8

abbrev required_capabilities : List Capability
required_capabilities =
    public_directory ∷ public_profile ∷ identity ∷ client_authentication ∷ presence ∷ relationships
    ∷ relay_bindings ∷ []

abbrev incompatible : Fault
incompatible = client_error (record { error_code = protocol_unsupported; retryable = false })

unfoldable pub assert_compatible : Bootstrap → Result Fault (Unit {0})
assert_compatible bootstrap = do
  fail_if (bootstrap.protocol_version != protocol_version) incompatible
  fail_if (ltb bootstrap.contract_revision minimum_contract_revision) incompatible
  fail_if (not (all bootstrap.capabilities required_capabilities)) incompatible
