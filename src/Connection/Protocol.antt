-- ===== src/Connection/Protocol.antt =====
-- core/connection/protocol.ts: building and validating requests, accepts and rejects. The tests that
-- a value has its declared type are the types here; properties beyond the declared ones are `extra`.
use teti_bot.Base.{
  ℕ, String, not, Option, none, some, List, [], ◌∷◌, ◌==◌, ◌!=◌, number_equality, text_equality,
  if◌then◌else◌, is_blank, Result, ok, err, ◌>>◌, fail_if,
}
use teti_bot.Identity.{is_canonical_public_id}
use teti_bot.Json.{Extra, has_field}
use teti_bot.Connection.Types.{Profile, ConnectionRequest, ConnectionAccept, ConnectionReject}

-- What the connection code throws.
pub data Fault : Type 0 where
  private_field : (label field : String) → Fault
  unsupported_version : (label : String) → Fault
  missing : (field : String) → Fault
  bad_public_id : (field : String) → Fault
  invalid : (what : String) → Fault
  not_found : (request_id : String) → Fault
  not_pending : (request_id : String) → Fault
  cannot_confirm : (request_id : String) → Fault
  no_account : Fault
  not_delivered : Fault

abbrev pub connection_version : ℕ
connection_version = 1

abbrev pub forbidden_fields : List String
forbidden_fields =
    "privateKey" ∷ "secretKey" ∷ "password" ∷ "credentials" ∷ "chatmailPassword" ∷ "databasePath"
    ∷ "dbPath" ∷ "chatHistory" ∷ "messages" ∷ []

-- The loop of `rejectPrivateFields`.
reject_each : String → List String → Extra → Result Fault (Unit {0})
reject_each label [] value = ok tt
reject_each label (field ∷ fields) value =
    if has_field field value
    then err (private_field label field)
    else reject_each label fields value

unfoldable pub reject_private_fields : Extra → String → Result Fault (Unit {0})
unfolding reject_each
reject_private_fields value label = reject_each label forbidden_fields value

unfoldable pub require_canonical_public_id : String → String → Result Fault (Unit {0})
require_canonical_public_id value field =
    fail_if (not (is_canonical_public_id value)) (bad_public_id field)

unfoldable pub require_non_empty : String → String → Result Fault (Unit {0})
require_non_empty value field = fail_if (is_blank value) (missing field)

unfoldable pub validate_request : ConnectionRequest → Result Fault (Unit {0})
unfolding require_canonical_public_id require_non_empty
validate_request value = do
  reject_private_fields value.extra "Connection request"
  fail_if (value.version != connection_version) (unsupported_version "request")
  require_non_empty value.request_id "requestId"
  require_canonical_public_id value.from_teti_id "fromTetiId"
  require_non_empty value.from_address "fromAddress"
  require_non_empty value.created_at "createdAt"
  require_non_empty value.nonce "nonce"
  reject_private_fields value.profile "Connection request profile"

unfoldable pub validate_accept : ConnectionAccept → Result Fault (Unit {0})
unfolding require_canonical_public_id require_non_empty
validate_accept value = do
  reject_private_fields value.extra "Connection accept"
  fail_if (value.version != connection_version) (unsupported_version "accept")
  require_non_empty value.request_id "requestId"
  require_canonical_public_id value.from_teti_id "fromTetiId"
  require_non_empty value.from_address "fromAddress"
  require_non_empty value.created_at "createdAt"
  require_non_empty value.nonce "nonce"

unfoldable pub validate_reject : ConnectionReject → Result Fault (Unit {0})
unfolding require_non_empty
validate_reject value = do
  reject_private_fields value.extra "Connection reject"
  require_non_empty value.request_id "requestId"

-- What the handshake reads of core/account/model.ts's `TetiAccount`.
pub record Account : Type 0 where
  pub id : String
  pub address : String
  pub chatmail_account_id : ℕ
  pub public_key : Option String
  pub public_profile : Profile

-- `if (x)` for a text that may be absent.
abbrev pub truthy : Option String → Option String
truthy none = none
truthy (some s) = if s == "" then none else some s

-- `randomUUID`, `randomBytes` and the clock of the omitted inputs are the arguments given here.
unfoldable pub create_request :
    Account → (request_id nonce created_at : String) → Result Fault ConnectionRequest
create_request account request_id nonce created_at =
    let request : ConnectionRequest = record {
      version = connection_version;
      request_id = request_id;
      from_teti_id = account.id;
      from_address = account.address;
      public_key = truthy account.public_key;
      profile = account.public_profile;
      created_at = created_at;
      nonce = nonce;
      extra = [];
    } in
    validate_request request >> ok request

unfoldable pub create_accept :
    Account → (request_id nonce created_at : String) → Result Fault ConnectionAccept
create_accept account request_id nonce created_at =
    let accept : ConnectionAccept = record {
      version = connection_version;
      request_id = request_id;
      from_teti_id = account.id;
      from_address = account.address;
      created_at = created_at;
      nonce = nonce;
      extra = [];
    } in
    validate_accept accept >> ok accept

unfoldable pub create_reject : String → Option String → Result Fault ConnectionReject
create_reject request_id reason =
    let reject : ConnectionReject = record {
      request_id = request_id;
      reason = truthy reason;
      extra = [];
    } in
    validate_reject reject >> ok reject
