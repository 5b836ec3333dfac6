-- ===== src/Relationship/Command.antt =====
-- services/network/relationship-service.ts: the test of a document against the local identity, and the commands
-- that are made.
use teti_bot.Base.{
  ℕ, zero, suc, String, Bool, true, false, not, ◌&&◌, ◌||◌, Option, none, some, ◌==◌, ◌!=◌,
  number_equality, text_equality, if◌then◌else◌, Result, fail_if,
}
use teti_bot.Relationship.{
  client_error, relationship_revision_conflict, relationship_not_found, requested, outgoing,
  incoming, Direction, Document, ErrorCode, RelationshipState, Fault, RelationshipResult, conflict,
}
use teti_bot.Relationship.Store.{is_request, Operation, PendingCommand}
use teti_bot.Connection.Storage.{etag_codes}

abbrev pub is_outgoing : Direction → Bool
is_outgoing outgoing = true
is_outgoing incoming = false

abbrev pub is_requested : RelationshipState → Bool
is_requested requested = true
is_requested _ = false

-- `expectedPeerTetiId && document.peerTetiId !== expectedPeerTetiId`.
abbrev pub is_other_peer : Option String → String → Bool
is_other_peer none peer = false
is_other_peer (some expected) peer = expected != "" && peer != expected

unfoldable pub projection_ok : Document → String → Option String → Bool
projection_ok d teti_id expected = not (
    (d.requester_teti_id != teti_id && d.addressee_teti_id != teti_id)
    || d.requester_teti_id == d.addressee_teti_id
    || d.peer_teti_id == teti_id
    || is_other_peer expected d.peer_teti_id
    || (is_outgoing d.direction && d.requester_teti_id != teti_id)
    || (not (is_outgoing d.direction) && d.addressee_teti_id != teti_id))

unfoldable pub assert_projection : Document → String → Option String → Result Fault (Unit {0})
assert_projection d teti_id expected = fail_if (not (projection_ok d teti_id expected)) conflict

abbrev pub is_code : (ErrorCode → Bool) → Fault → Bool
is_code p (client_error e) = p e.error_code
is_code p _ = false

abbrev pub is_revision_conflict : ErrorCode → Bool
is_revision_conflict relationship_revision_conflict = true
is_revision_conflict _ = false

abbrev pub is_not_found : ErrorCode → Bool
is_not_found relationship_not_found = true
is_not_found _ = false

abbrev predecessor : ℕ → Option ℕ
predecessor zero = none
predecessor (suc n) = some n

-- `none` is -1, which the store refuses.
unfoldable pub expected_revision : Operation → Option RelationshipResult → Option ℕ
unfolding is_request
expected_revision operation none = some 0
expected_revision operation (some current) =
    if is_request operation
      && is_requested current.document.state
      && not (is_outgoing current.document.direction)
    then predecessor current.document.revision
    else some current.document.revision

abbrev pub only_if : Bool → String → Option String
only_if true v = some v
only_if false v = none

-- The command of `executeNew`; `target` is the peer of a request and the relationship of the others.
unfoldable pub new_command : String → Operation → String → ℕ → String → PendingCommand
unfolding is_request
new_command teti_id operation target revision key = record {
  teti_id = teti_id;
  operation = operation;
  peer_teti_id = only_if (is_request operation) target;
  relationship_id = only_if (not (is_request operation)) target;
  expected_revision = revision;
  if_match = etag_codes revision;
  idempotency_key = key;
  raw_body = record {
    schema_version = 1;
    peer_teti_id = only_if (is_request operation) target;
    expected_revision = revision;
  };
}
