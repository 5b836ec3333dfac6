-- ===== src/Connection/Tests.antt =====
-- Concrete runs of the connection code: an account, a peer and a request between them.
use teti_bot.Base.{
  String, ◌≡◌, refl, ◌⊎◌, Bool, true, false, none, some, List, [], ◌∷◌, ◌++◌, number_equality,
  text_equality, ok, err, All,
}
use teti_bot.Base.{is_blank, ≢_of_==}
use teti_bot.Identity.{is_canonical_public_id}
use teti_bot.Connection.Types.{
  ConnectionState, ConnectionRequest, ConnectionRecord, apply_patch, is_confirmed, ConnectionAccept,
}
use teti_bot.Connection.Protocol.{
  Account, validate_request, validate_accept, create_request, create_accept, reject_private_fields,
  not_delivered, not_pending,
}
use teti_bot.Connection.Storage.{
  Connections, validate_record, validate_all, save_all, placed, upsert, update, upsert_file,
  update_file, save_all_file,
}
use teti_bot.Connection.Storage.Ids.{DistinctIds, lookup}
use teti_bot.Connection.Storage.Laws.{AllValid}
use teti_bot.Connection.World.{
  Host, World, ◌>>=◌, return, throw, lift, load_all, tick, send, store_upsert, store_save_all,
  store_update, require_connection, require_request_id, require_local_account,
}
use teti_bot.Connection.Handshake.{
  confirmed_patch, incoming_record, handle_incoming_request, receive_new, confirm_found,
  confirm_peer_connection, accept_connection, answer_request, accepted_patch, is_pending,
}
use teti_bot.Connection.Types.{is_archived}
use teti_bot.Connection.Reconcile.{
  reconcile_confirmed_peers, reconciled, canonicals, IsLeft, reconcile_confirmed_peers_lem,
}
use teti_bot.Connection.Handshake.Peers.{OnePerPeer}
use teti_bot.Connection.Handshake.Invariant.{IsGood}
use teti_bot.Connection.Manager.{perform, perform_all, Call}
use teti_bot.Connection.Handshake.Accept.{
  accept_message, accept_connection-sends, accept_connection-undelivered,
}
use teti_bot.Connection.Handshake.Confirm.{
  IsConfirmation, IsApart, confirm_peer_connection-others, confirm_peer_connection-store,
}
use teti_bot.Connection.Handshake.Incoming.{handle_incoming_request-again}
use teti_bot.Connection.Manager.Invariant.{perform_all-IsGood}

abbrev account : Account
account = record {
  id = "teti_local0000";
  address = "local@chat";
  chatmail_account_id = 7;
  public_key = none;
  public_profile = [];
}

abbrev host : (delivers : Bool) → Host
host delivers = record {
  account = some account;
  now = λ _. "2026-01-01T00:00:00Z";
  request_id = λ _. "request-new";
  nonce = λ _. "nonce";
  delivers = λ _ _. delivers;
  is_date = λ _. true;
}

abbrev request_of : (request_id peer : String) → ConnectionRequest
request_of request_id peer = record {
  version = 1;
  request_id = request_id;
  from_teti_id = peer;
  from_address = "peer@chat";
  public_key = none;
  profile = [];
  created_at = "2025-12-31T00:00:00Z";
  nonce = "n";
  extra = [];
}

abbrev record_of : (request_id peer : String) → ConnectionState → ConnectionRecord
record_of request_id peer state = record (incoming_record (request_of request_id peer) "now") {
  state = state;
}

-- A pending request of a peer with an older, confirmed connection, and a connection to a third.
abbrev pending : ConnectionRecord
pending = record_of "request-1" "teti_peer00000" ConnectionState.pending_approval

abbrev pub older : ConnectionRecord
older = record_of "request-0" "teti_peer00000" ConnectionState.confirmed

abbrev pub third : ConnectionRecord
third = record_of "request-2" "teti_third0000" ConnectionState.confirmed

abbrev pub records : Connections
records = older ∷ pending ∷ third ∷ []

abbrev world : World
world = record { store = records; outbox = []; ticks = 0 }

computes : Unit {0}
unfolding is_blank is_canonical_public_id apply_patch is_confirmed validate_request validate_accept
    create_request create_accept reject_private_fields validate_record validate_all save_all placed
    upsert update upsert_file update_file save_all_file ◌>>=◌ return throw lift load_all tick send
    store_upsert store_save_all store_update require_connection require_request_id
    require_local_account handle_incoming_request receive_new confirm_found confirm_peer_connection
    accept_connection answer_request perform perform_all
computes = tt

abbrev pub at : String
at = "2026-01-01T00:00:00Z"

-- The request once it is accepted, and once it is confirmed.
abbrev pub accepted : ConnectionRecord
accepted = apply_patch pending (accepted_patch at) "request-1"

abbrev confirmed : ConnectionRecord
confirmed = apply_patch accepted (confirmed_patch at) "request-1"

abbrev answer : ConnectionAccept
answer = record {
  version = 1;
  request_id = "request-1";
  from_teti_id = account.id;
  from_address = account.address;
  created_at = at;
  nonce = "nonce";
  extra = [];
}

abbrev after_accept : World
after_accept = record {
  store = confirmed ∷ third ∷ [];
  outbox = accept_message account pending answer ∷ [];
  ticks = 4;
}

accept_result : accept_connection (host true) "request-1" world ≡ (ok confirmed, after_accept)
unfolding computes
accept_result = refl

accept_connection-sends_example :
    (c : ConnectionRecord) × (a : Account) × (accept : ConnectionAccept) × (lookup "request-1"
        records
      ≡ some c)
    × (is_pending c.state ≡ true)
    × (after_accept.outbox ≡ [] ++ accept_message a c accept ∷ [])
    × (accept.request_id ≡ "request-1")
    × (confirmed.state ≡ ConnectionState.confirmed)
accept_connection-sends_example =
    accept_connection-sends (host true) "request-1" world after_accept confirmed accept_result

pub records-DistinctIds : DistinctIds records
records-DistinctIds = (
  (≢_of_== "request-1" "request-0" refl, (≢_of_== "request-2" "request-0" refl, tt)),
  ((≢_of_== "request-2" "request-1" refl, tt), (tt, tt)),
)

pub records-AllValid : AllValid (λ _. true) records
unfolding computes
records-AllValid = (refl, (refl, (refl, tt)))

records-OnePerPeer : OnePerPeer records
unfolding computes
records-OnePerPeer = ((refl, (refl, tt)), ((refl, tt), (tt, tt)))

world-IsGood : (delivers : Bool) → IsGood (host delivers) world
world-IsGood delivers = record {
  distinct = records-DistinctIds;
  valid = records-AllValid;
  one_per_peer = records-OnePerPeer;
}

accept_connection-undelivered_example :
    (w' : World) × (accept_connection (host false) "request-1" world ≡ (err not_delivered, w'))
    × (lookup "request-1" w'.store ≡ some accepted)
    × (accepted.state ≡ ConnectionState.accepted)
    × (w'.outbox ≡ [])
    × (accept_connection (host false) "request-1" w' ≡ (err (not_pending "request-1"), w'))
unfolding computes
accept_connection-undelivered_example =
    accept_connection-undelivered (host false) "request-1" account world pending accepted
      (older ∷ accepted ∷ third ∷ []) answer (world-IsGood false) refl refl refl refl refl refl refl

-- The confirmation alone, of a store where the peer's older connection is confirmed.
abbrev confirmed_directly : ConnectionRecord
confirmed_directly = apply_patch pending (confirmed_patch at) "request-1"

abbrev after_confirm : World
after_confirm = record { store = confirmed_directly ∷ third ∷ []; outbox = []; ticks = 0 }

confirm_result :
    confirm_peer_connection (host true) "request-1" (confirmed_patch at) world
    ≡ (ok confirmed_directly, after_confirm)
unfolding computes
confirm_result = refl

confirm_peer_connection-store_example :
    (old : ConnectionRecord) × IsConfirmation
      (host true)
      "request-1"
      (confirmed_patch at)
      world
      after_confirm
      old
      confirmed_directly
    × (lookup "request-1" after_confirm.store ≡ some confirmed_directly)
    × All (IsApart "request-1" old confirmed_directly) after_confirm.store
    × DistinctIds after_confirm.store
    × OnePerPeer after_confirm.store
confirm_peer_connection-store_example =
    confirm_peer_connection-store (host true) "request-1" (confirmed_patch at) world after_confirm
      confirmed_directly records-DistinctIds records-OnePerPeer confirm_result

confirm_peer_connection-others_example :
    (old : ConnectionRecord) × (lookup "request-1" records ≡ some old)
    × ((third.remote_teti_id ≡ old.remote_teti_id)
        ⊎ (lookup "request-2" after_confirm.store ≡ some third))
unfolding computes
confirm_peer_connection-others_example =
    confirm_peer_connection-others (host true) "request-1" (confirmed_patch at) world after_confirm
      confirmed_directly third "request-2" records-DistinctIds confirm_result refl
      (≢_of_== "request-2" "request-1" refl) (≢_of_== "teti_third0000" "teti_peer00000" refl)

abbrev pub received : ConnectionRecord
received = incoming_record (request_of "request-3" "teti_fourth000") at

abbrev after_request : World
after_request = record { store = records ++ received ∷ []; outbox = []; ticks = 1 }

handle_incoming_request-again_example :
    handle_incoming_request (host true) (request_of "request-3" "teti_fourth000") after_request
    ≡ (ok received, after_request)
unfolding computes
handle_incoming_request-again_example =
    handle_incoming_request-again (host true) (request_of "request-3" "teti_fourth000") world
      after_request received refl

abbrev calls : List Call
calls = Call.approve "request-1" ∷ Call.decline "request-2" ∷ Call.approve "request-1" ∷ []

perform_all-IsGood_example : IsGood (host true) (perform_all (host true) calls world)
perform_all-IsGood_example = perform_all-IsGood (host true) calls world (world-IsGood true)

-- The peer's pending request goes, since the peer has a confirmed connection.
reconcile_confirmed_peers_lem_example :
    OnePerPeer (older ∷ third ∷ [])
    × DistinctIds (older ∷ third ∷ [])
    × All (λ c. is_archived c ≡ false) (older ∷ third ∷ [])
    × IsLeft (λ _. true) (λ _ _. false) records (older ∷ third ∷ []) (older ∷ third ∷ [])
unfolding computes reconcile_confirmed_peers reconciled canonicals is_archived
reconcile_confirmed_peers_lem_example =
    reconcile_confirmed_peers_lem (λ _. true) (λ _ _. false) records (older ∷ third ∷ [])
      (older ∷ third ∷ []) records-DistinctIds refl
