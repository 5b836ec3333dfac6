-- ===== src/Relationship/Store.antt =====
-- services/network/relationship-command-store.ts and relationship-reconciliation-store.ts: what the two
-- stores accept. The text `rawBody` is kept as the value that it is the text of; where the other tests
-- pass it is shorter than the limit.
use teti_bot.Base.{
  ℕ, String, Bool, true, false, not, ◌&&◌, ◌||◌, Option, none, some, List, ◌∷◌, ◌==◌,
  number_equality, text_equality, if◌then◌else◌, Result, ◌>>◌, is_alnum, is_some, leb, ltb, codes,
  fail_if, length, max_safe_integer, all, same_codes,
}
use teti_bot.Identity.{is_canonical_public_id}
use teti_bot.Connection.Storage.{is_relationship_id, etag_codes}
use teti_bot.Relationship.{Fault, invalid_record}

pub data Operation : Type 0 where
  request accept reject block revoke : Operation

pub record CommandBody : Type 0 where
  pub schema_version : ℕ
  pub peer_teti_id : Option String
  pub expected_revision : ℕ

pub record PendingCommand : Type 0 where
  pub teti_id : String
  pub operation : Operation
  pub peer_teti_id : Option String
  pub relationship_id : Option String
  pub expected_revision : ℕ
  pub if_match : List ℕ
  pub idempotency_key : String
  pub raw_body : CommandBody

unfoldable pub is_request : Operation → Bool
is_request request = true
is_request _ = false

-- `/^[A-Za-z0-9._:-]$/`.
abbrev is_key_char : ℕ → Bool
is_key_char c = is_alnum c || c == b'.' || c == b'_' || c == b':' || c == b'-'

-- `/^[A-Za-z0-9._:-]{16,128}$/`.
unfoldable pub is_key : List ℕ → Bool
is_key v = leb 16 (length v) && leb (length v) 128 && all is_key_char v

abbrev same_optional : Option String → Option String → Bool
same_optional none none = true
same_optional (some v) (some w) = v == w
same_optional _ _ = false

abbrev is_optional_teti_id : Option String → Bool
is_optional_teti_id none = false
is_optional_teti_id (some v) = is_canonical_public_id v

abbrev is_optional_relationship_id : Option String → Bool
is_optional_relationship_id none = false
is_optional_relationship_id (some v) = is_relationship_id (codes v)

unfoldable pub command_ok : PendingCommand → Bool
unfolding is_key
command_ok p =
    is_canonical_public_id p.teti_id
    && leb p.expected_revision max_safe_integer
    && same_codes p.if_match (etag_codes p.expected_revision)
    && is_key (codes p.idempotency_key)

unfoldable pub target_ok : PendingCommand → Bool
unfolding is_request
target_ok p =
    if is_request p.operation
    then is_optional_teti_id p.peer_teti_id && not (is_some p.relationship_id)
    else is_optional_relationship_id p.relationship_id && not (is_some p.peer_teti_id)

unfoldable pub body_ok : PendingCommand → Bool
unfolding is_request
body_ok p =
    p.raw_body.schema_version == 1
    && p.raw_body.expected_revision == p.expected_revision
    && (if is_request p.operation
        then same_optional p.raw_body.peer_teti_id p.peer_teti_id
        else not (is_some p.raw_body.peer_teti_id))

-- `validateRelationshipCommandRecord` of a record with a pending command.
unfoldable pub validate_command : PendingCommand → Result Fault (Unit {0})
validate_command p = do
  fail_if (not (command_ok p)) invalid_record
  fail_if (not (target_ok p)) invalid_record
  fail_if (not (body_ok p)) invalid_record

-- The identity and the checkpoint of a reconciliation record that is not empty.
pub record Binding : Type 0 where
  pub teti_id : String
  pub checkpoint : String

is_base64url : ℕ → Bool
is_base64url c = is_alnum c || c == b'_' || c == b'-'

-- `/^rcp_[A-Za-z0-9_-]+$/`, of 5 to 512 characters.
unfoldable pub is_checkpoint : List ℕ → Bool
unfolding is_base64url
is_checkpoint (r ∷ c ∷ p ∷ u ∷ rest) =
    r == b'r'
    && c == b'c'
    && p == b'p'
    && u == b'_'
    && ltb 0 (length rest)
    && leb (length rest) 508
    && all is_base64url rest
is_checkpoint _ = false

-- `validateRelationshipReconciliationRecord` of a record that is not empty.
unfoldable pub validate_binding : Binding → Result Fault (Unit {0})
unfolding is_checkpoint
validate_binding b =
    fail_if (not (is_canonical_public_id b.teti_id && is_checkpoint (codes b.checkpoint)))
      invalid_record
