-- ===== src/Relationship/Tests.antt =====
-- A server that loses the first answer, the request of a peer made twice, and a feed of two pages.
use teti_bot.Relationship.Feed.{resumed, found_compatible, fed, Feeds, reconcile-fed}
use teti_bot.Base.{same_codes, decimal}
use teti_bot.Relationship.World.{
  cleared, sent, saved, ◌>>=◌, Network, is_final, is_final_fault, write, clear, save, ask, gets,
  lift, return, throw, catching, mark_compatible,
}
use teti_bot.Relationship.{
  client_error, network_timeout, relationship_not_found, other, RelationshipState, Direction,
  Document, Bootstrap, ChangesPage, Fault, RelationshipResult, assert_compatible,
}
use teti_bot.Base.{
  ℕ, String, ◌≡◌, refl, true, false, none, [], ◌∷◌, arith, ◌==◌, number_equality, text_equality,
  if◌then◌else◌, Result, ok, err, ltb, is_alnum,
}
use teti_bot.Relationship.Calls.{perform, perform_all, request_call, fresh}
use teti_bot.Relationship.Store.{
  PendingCommand, validate_binding, Operation, is_checkpoint, is_request, validate_command,
  command_ok, target_ok, body_ok, is_key,
}
use teti_bot.Relationship.Protocol.{IsTraced, Reads}
use teti_bot.Relationship.Command.{projection_ok, new_command, expected_revision, assert_projection}
use teti_bot.Relationship.Scan.{reconcile}
use teti_bot.Relationship.Service.{
  request_peer, execute, execute_new, prepare, check_compatible, recover_pending, recover,
  recovered_or, send_pending, attempt, on_error, latest_document, read_by_peer,
}
use teti_bot.Relationship.Runs.{perform-settles, perform_all-IsTraced}
use teti_bot.Identity.{is_canonical_public_id}
use teti_bot.Connection.Storage.{etag_codes, is_relationship_id}

abbrev local : String
local = "teti_aaaaaaaaa"

abbrev peer : String
peer = "teti_bbbbbbbbb"

abbrev document : ℕ → Document
document revision = record {
  schema_version = 1;
  id = "rel_aaaaaaaaaaaaaaaaaaaaaA";
  revision = revision;
  state = RelationshipState.requested;
  peer_teti_id = peer;
  requester_teti_id = local;
  addressee_teti_id = peer;
  direction = Direction.outgoing;
  blocked_by = none;
  created_at = "2026-01-01T00:00:00Z";
  updated_at = "2026-01-01T00:00:00Z";
  state_changed_at = "2026-01-01T00:00:00Z";
}

abbrev answer : Result Fault RelationshipResult
answer = ok (record { document = document 1; etag = "e" })

abbrev lost : Fault
lost = client_error (record { error_code = network_timeout; retryable = true })

abbrev missing : Fault
missing = client_error (record { error_code = relationship_not_found; retryable = false })

abbrev first_page : ChangesPage
first_page = record { items = document 1 ∷ document 2 ∷ []; checkpoint = "rcp_1"; has_more = true }

abbrev last_page : ChangesPage
last_page = record { items = document 3 ∷ []; checkpoint = "rcp_2"; has_more = false }

abbrev protocol : Bootstrap
protocol = record { protocol_version = 1; contract_revision = 8; capabilities = λ _. true }

-- The answers of writes are lost before the tick `from`.
abbrev network : (from : ℕ) → Network
network from = record {
  bootstrap = λ _. ok protocol;
  authentication = λ _. ok local;
  idempotency_key = λ _ _. "relationship.request:1";
  write = λ t _. if ltb t from then err lost else answer;
  relationship = λ _ _. answer;
  with_peer = λ _ _. err missing;
  authorization = λ _ _. err other;
  snapshot = λ _ _. err other;
  changes = λ _ after. ok (if after == "rcp_0" then first_page else last_page);
  apply = λ _ _. ok tt;
}

computes : Unit {0}
unfolding perform perform_all request_peer execute execute_new prepare check_compatible
    assert_compatible recover_pending recover recovered_or send_pending attempt on_error
    latest_document read_by_peer new_command expected_revision is_request projection_ok
    assert_projection is_final is_final_fault write clear save ask gets lift return throw catching
    ◌>>=◌ mark_compatible validate_command command_ok target_ok body_ok is_key
    is_canonical_public_id same_codes etag_codes is_relationship_id decimal is_alnum
computes = tt

abbrev saved_request : PendingCommand
saved_request = new_command local Operation.request peer 0 "relationship.request:1"

-- The second call sends the command of the first again.
sent_twice :
    (perform_all (network 5) (request_call peer ∷ request_call peer ∷ []) fresh).log
    ≡ cleared ∷ sent saved_request true ∷ sent saved_request false ∷ saved saved_request ∷ []
unfolding computes
sent_twice = refl

perform_all-IsTraced_example :
    IsTraced (perform_all (network 5) (request_call peer ∷ request_call peer ∷ []) fresh)
perform_all-IsTraced_example =
    perform_all-IsTraced (network 5) (request_call peer ∷ request_call peer ∷ []) fresh Reads.start

perform-settles_example :
    (perform
      (network 5)
      (request_call peer)
      (perform_all (network 5) (request_call peer ∷ []) fresh)).1.pending
    ≡ none
unfolding computes
perform-settles_example =
    perform-settles (network 5) (request_call peer ∷ []) (request_call peer) refl refl

feeds : Feeds (network 0) local [] "rcp_0" first_page (last_page ∷ [])
unfolding projection_ok validate_binding is_checkpoint is_canonical_public_id is_alnum
feeds = (
  record { served = λ _. refl; unseen = refl; projected = (refl, (refl, tt)); storable = refl },
  refl,
  refl,
  (record { served = λ _. refl; unseen = refl; projected = (refl, tt); storable = refl }, refl),
)

protocol-fits : assert_compatible protocol ≡ ok tt
unfolding assert_compatible
protocol-fits = refl

reconcile-fed_example :
    (t : ℕ) × (reconcile (network 0) 2 (resumed (network 0) local fresh "rcp_0") ≡ (
      ok tt,
      fed
          (network 0)
          local
          (found_compatible (network 0) local (resumed (network 0) local fresh "rcp_0"))
          first_page
          (last_page ∷ [])
          t,
    ))
reconcile-fed_example =
    reconcile-fed (network 0) local (λ _ _. refl) 2 "rcp_0" first_page (last_page ∷ []) fresh
      protocol (λ _. refl) protocol-fits (λ _. refl) (omega arith) feeds
