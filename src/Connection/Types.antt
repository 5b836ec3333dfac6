-- ===== src/Connection/Types.antt =====
-- core/connection/types.ts: requests, answers, connection records and their states.
use teti_bot.Base.{ℕ, String, Bool, true, false, ◌&&◌, not, Option, none, some, or_else}
use teti_bot.Json.{Extra}

pub data ConnectionState : Type 0 where
  requested pending_approval accepted confirmed rejected blocked : ConnectionState

pub data Direction : Type 0 where
  incoming outgoing : Direction

-- A public profile, by its properties.
abbrev pub Profile : Type 0
Profile = Extra

pub record ConnectionRequest : Type 0 where
  pub version : ℕ
  pub request_id : String
  pub from_teti_id : String
  pub from_address : String
  pub public_key : Option String
  pub profile : Profile
  pub created_at : String
  pub nonce : String
  pub extra : Extra

pub record ConnectionAccept : Type 0 where
  pub version : ℕ
  pub request_id : String
  pub from_teti_id : String
  pub from_address : String
  pub created_at : String
  pub nonce : String
  pub extra : Extra

pub record ConnectionReject : Type 0 where
  pub request_id : String
  pub reason : Option String
  pub extra : Extra

pub data RelationshipState : Type 0 where
  requested confirmed rejected blocked revoked : RelationshipState

pub data BlockedBy : Type 0 where
  self peer : BlockedBy

pub record NetworkRelationship : Type 0 where
  pub schema_version : ℕ
  pub id : String
  pub revision : ℕ
  pub state : RelationshipState
  pub etag : String
  pub blocked_by : Option BlockedBy
  pub state_changed_at : String
  pub document_fingerprint : Option String

pub record ConnectionRecord : Type 0 where
  pub version : ℕ
  pub request_id : String
  pub state : ConnectionState
  pub direction : Direction
  pub remote_teti_id : String
  pub remote_address : String
  pub remote_public_key : Option String
  pub request : ConnectionRequest
  pub created_at : String
  pub updated_at : String
  pub accepted_at : Option String
  pub rejected_at : Option String
  pub confirmed_at : Option String
  pub network_relationship : Option NetworkRelationship
  pub extra : Extra

-- `Partial<TetiConnectionRecord>`: `none` is a key that the patch does not have. Only the keys that
-- the handshake patches are kept; `requestId` is set anew behind each patch.
pub record Patch : Type 0 where
  pub state : Option ConnectionState
  pub remote_teti_id : Option String
  pub remote_address : Option String
  pub updated_at : Option String
  pub accepted_at : Option String
  pub rejected_at : Option String
  pub confirmed_at : Option String

abbrev patch_optional : Option String → Option String → Option String
patch_optional none old = old
patch_optional (some v) old = some v

-- `{ ...existing, ...patch, requestId }`.
unfoldable pub apply_patch : ConnectionRecord → Patch → String → ConnectionRecord
apply_patch r p request_id = record r {
  request_id = request_id;
  state = or_else p.state r.state;
  remote_teti_id = or_else p.remote_teti_id r.remote_teti_id;
  remote_address = or_else p.remote_address r.remote_address;
  updated_at = or_else p.updated_at r.updated_at;
  accepted_at = patch_optional p.accepted_at r.accepted_at;
  rejected_at = patch_optional p.rejected_at r.rejected_at;
  confirmed_at = patch_optional p.confirmed_at r.confirmed_at;
}

abbrev pub is_confirmed_state : ConnectionState → Bool
is_confirmed_state confirmed = true
is_confirmed_state _ = false

abbrev revoked_state : RelationshipState → Bool
revoked_state revoked = true
revoked_state _ = false

abbrev confirmed_relationship : RelationshipState → Bool
confirmed_relationship confirmed = true
confirmed_relationship _ = false

relationship_is : (RelationshipState → Bool) → Option NetworkRelationship → Bool
relationship_is p none = false
relationship_is p (some n) = p n.state

unfoldable pub is_archived : ConnectionRecord → Bool
unfolding relationship_is
is_archived c = relationship_is revoked_state c.network_relationship

unfoldable pub is_confirmed : ConnectionRecord → Bool
unfolding is_archived
is_confirmed c = is_confirmed_state c.state && not (is_archived c)

unfoldable pub is_network_confirmed : ConnectionRecord → Bool
unfolding is_confirmed
is_network_confirmed c =
    is_confirmed c && relationship_is confirmed_relationship c.network_relationship
