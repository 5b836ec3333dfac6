-- ===== src/Connection/Handshake.antt =====
-- core/connection/handshake.ts: the operations of the handshake.
pub mod Peers
pub mod Confirm
pub mod Invariant
pub mod Operations
pub mod Incoming
pub mod Accept
use teti_bot.Base.{
  ℕ, String, Bool, true, false, not, ◌&&◌, ◌||◌, Option, none, some, [], ◌==◌, number_equality,
  text_equality, if◌then◌else◌,
}
use teti_bot.Base.{find, find_entry, set, filter}
use teti_bot.Connection.Types.{
  ConnectionState, ConnectionRequest, ConnectionAccept, ConnectionReject, ConnectionRecord, Patch,
  Direction, apply_patch, is_confirmed,
}
use teti_bot.Connection.Protocol.{
  not_found, not_pending, cannot_confirm, connection_version, validate_request, create_request,
  create_accept, create_reject, Account,
}
use teti_bot.Connection.Storage.{Connections, has_id}
use teti_bot.Connection.World.{
  RemoteIdentity, Payload, Host, M, ◌>>=◌, ◌>>◌, return, throw, lift, throw_if, load_all, tick,
  send, store_upsert, store_save_all, store_update, require_local_account, require_connection,
  require_request_id,
}

abbrev pub no_patch : Patch
no_patch = record {
  state = none;
  remote_teti_id = none;
  remote_address = none;
  updated_at = none;
  accepted_at = none;
  rejected_at = none;
  confirmed_at = none;
}

abbrev pub accepted_patch : String → Patch
accepted_patch at = record no_patch {
  state = some ConnectionState.accepted;
  updated_at = some at;
  accepted_at = some at;
}

abbrev pub confirmed_patch : String → Patch
confirmed_patch at = record no_patch {
  state = some ConnectionState.confirmed;
  updated_at = some at;
  confirmed_at = some at;
}

abbrev pub rejected_patch : String → Patch
rejected_patch at = record no_patch {
  state = some ConnectionState.rejected;
  updated_at = some at;
  rejected_at = some at;
}

abbrev pub is_pending : ConnectionState → Bool
is_pending ConnectionState.pending_approval = true
is_pending _ = false

-- The states that `handleAccept` confirms.
abbrev pub is_confirmable : ConnectionState → Bool
is_confirmable ConnectionState.requested = true
is_confirmable ConnectionState.accepted = true
is_confirmable _ = false

-- `a || b` on texts.
abbrev pub or_text : String → String → String
or_text a b = if a == "" then b else a

abbrev pub return_or : Option ConnectionRecord → M ConnectionRecord → M ConnectionRecord
return_or none k = k
return_or (some c) k = return c

-- The filter of `confirmPeerConnection`: the confirmed record, and the records of other peers.
abbrev pub keeps : String → (old new : ConnectionRecord) → ConnectionRecord → Bool
keeps k old new c =
    c.request_id == k
    || not (c.remote_teti_id == old.remote_teti_id || c.remote_teti_id == new.remote_teti_id)

abbrev pub outgoing_record : RemoteIdentity → ConnectionRequest → String → ConnectionRecord
outgoing_record remote request timestamp = record {
  version = connection_version;
  request_id = request.request_id;
  state = ConnectionState.requested;
  direction = Direction.outgoing;
  remote_teti_id = remote.id;
  remote_address = remote.address;
  remote_public_key = none;
  request = request;
  created_at = timestamp;
  updated_at = timestamp;
  accepted_at = none;
  rejected_at = none;
  confirmed_at = none;
  network_relationship = none;
  extra = [];
}

abbrev pub incoming_record : ConnectionRequest → String → ConnectionRecord
incoming_record request timestamp = record {
  version = connection_version;
  request_id = request.request_id;
  state = ConnectionState.pending_approval;
  direction = Direction.incoming;
  remote_teti_id = request.from_teti_id;
  remote_address = request.from_address;
  remote_public_key = none;
  request = request;
  created_at = request.created_at;
  updated_at = timestamp;
  accepted_at = none;
  rejected_at = none;
  confirmed_at = none;
  network_relationship = none;
  extra = [];
}

abbrev pub is_confirmed_peer : String → ConnectionRecord → Bool
is_confirmed_peer peer c = is_confirmed c && c.remote_teti_id == peer

module _ (h : Host) where
  unfoldable pub create_handshake_request : RemoteIdentity → M ConnectionRecord
  create_handshake_request remote = do
    account ← require_local_account h
    timestamp ← tick h.now
    request_id ← tick h.request_id
    nonce ← tick h.nonce
    request ← lift (create_request account request_id nonce timestamp)
    send h (record {
      account_id = account.chatmail_account_id;
      to_address = remote.address;
      to_public_key = remote.public_key;
      payload = Payload.request request;
    })
    let c = outgoing_record remote request timestamp
    store_upsert h c
    return c

  -- The part of `handleIncomingRequest` behind its two lookups.
  unfoldable pub receive_new : ConnectionRequest → M ConnectionRecord
  receive_new request = do
    timestamp ← tick h.now
    let c = incoming_record request timestamp
    store_upsert h c
    return c

  unfoldable pub handle_incoming_request : ConnectionRequest → M ConnectionRecord
  handle_incoming_request request = do
    lift (validate_request request)
    cs ← load_all
    return_or (find (has_id request.request_id) cs)
        (return_or (find (is_confirmed_peer request.from_teti_id) cs) (receive_new request))

  -- The end of `confirmPeerConnection`, once the record is found at an index.
  unfoldable pub confirm_found :
      String → Patch → Connections → Option (ℕ × ConnectionRecord) → M ConnectionRecord
  confirm_found k patch cs none = throw (not_found k)
  confirm_found k patch cs (some (i, old)) = do
    let new = apply_patch old patch k
    store_save_all h (filter (keeps k old new) (set cs i new))
    return new

  unfoldable pub confirm_peer_connection : String → Patch → M ConnectionRecord
  confirm_peer_connection k patch = do
    cs ← load_all
    confirm_found k patch cs (find_entry (has_id k) cs)

  -- The part of `acceptConnection` behind its first update: the answer, and the confirmation.
  unfoldable pub answer_request :
      Account → ConnectionRecord → (k accepted_at : String) → M ConnectionRecord
  answer_request account existing k accepted_at = do
    nonce ← tick h.nonce
    accept ← lift (create_accept account k nonce accepted_at)
    send h (record {
      account_id = account.chatmail_account_id;
      to_address = existing.remote_address;
      to_public_key = existing.request.public_key;
      payload = Payload.accept accept;
    })
    confirmed_at ← tick h.now
    confirm_peer_connection k (confirmed_patch confirmed_at)

  unfoldable pub accept_connection : String → M ConnectionRecord
  accept_connection k = do
    require_request_id k
    account ← require_local_account h
    existing ← require_connection k
    throw_if (not (is_pending existing.state)) (not_pending k)
    accepted_at ← tick h.now
    stored ← store_update h k (accepted_patch accepted_at)
    answer_request account existing k accepted_at

  unfoldable pub reject_connection : String → Option String → M ConnectionRecord
  reject_connection k reason = do
    require_request_id k
    account ← require_local_account h
    existing ← require_connection k
    reject ← lift (create_reject k reason)
    send h (record {
      account_id = account.chatmail_account_id;
      to_address = existing.remote_address;
      to_public_key = existing.request.public_key;
      payload = Payload.reject reject;
    })
    rejected_at ← tick h.now
    store_update h k (rejected_patch rejected_at)

  -- `accept.createdAt || now(options)`.
  abbrev pub confirmed_time : String → M String
  confirmed_time created_at = if created_at == "" then tick h.now else return created_at

  unfoldable pub handle_accept : ConnectionAccept → M ConnectionRecord
  handle_accept accept = do
    require_request_id accept.request_id
    existing ← require_connection accept.request_id
    throw_if (not (is_confirmable existing.state)) (cannot_confirm accept.request_id)
    confirmed_at ← confirmed_time accept.created_at
    confirm_peer_connection accept.request_id (record (confirmed_patch confirmed_at) {
      remote_teti_id = some (or_text accept.from_teti_id existing.remote_teti_id);
      remote_address = some (or_text accept.from_address existing.remote_address);
    })

  unfoldable pub handle_reject : ConnectionReject → M ConnectionRecord
  handle_reject reject = do
    require_request_id reject.request_id
    existing ← require_connection reject.request_id
    rejected_at ← tick h.now
    store_update h reject.request_id (rejected_patch rejected_at)
