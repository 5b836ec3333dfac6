-- ===== src/Connection/Manager.antt =====
-- core/connection/manager.ts: the calls of `TetiConnectionManager`. What the messaging adapter has
-- received is an argument, since the adapter is handed to the manager.
pub mod Invariant
use teti_bot.Base.{
  ℕ, zero, suc, ◌+◌, ◌-◌, ◌≤◌, ◌<◌, String, ◌≡◌, refl, sym, ap, ◌∙◌, ◌≢◌, ◌↔◌, ◌⊎◌, inl, inr, Bool,
  true, false, not, ◌&&◌, ◌||◌, Option, none, some, List, [], ◌∷◌, ◌++◌, map, arith, ◌==◌, ◌!=◌,
  number_equality, text_equality, if◌then◌else◌, Result, ok, err, All, Bool-cases, eq_iff,
}
use teti_bot.Base.{or_else}
use teti_bot.Connection.Types.{
  ConnectionRequest, ConnectionAccept, ConnectionReject, ConnectionRecord,
}
use teti_bot.Connection.Protocol.{Fault, truthy}
use teti_bot.Connection.World.{
  RemoteIdentity, Host, World, M, ◌>>=◌, return, lift, load_all, require_local_account,
}
use teti_bot.Connection.Handshake.{
  create_handshake_request, handle_incoming_request, accept_connection, reject_connection,
  handle_accept, handle_reject,
}

pub record ReceivedRequest : Type 0 where
  pub received_at : Option String
  pub request : ConnectionRequest

pub data ReceivedEvent : Type 0 where
  request : (received_at : Option String) → ConnectionRequest → ReceivedEvent
  accept : (received_at : Option String) → ConnectionAccept → ReceivedEvent
  reject : (received_at : Option String) → ConnectionReject → ReceivedEvent

-- `now: timestamp ? () => timestamp : this.now`.
abbrev fixed_clock : Option String → Host → Host
fixed_clock none h = h
fixed_clock (some t) h = record h { now = λ _. t }

abbrev pub handshake_options : Host → Option String → Host
handshake_options h timestamp = fixed_clock (truthy timestamp) h

module _ (h : Host) where
  -- The loop of `receiveRequests`; a throw ends it.
  unfoldable pub receive_each : List ReceivedRequest → M (List ConnectionRecord)
  receive_each [] = return []
  receive_each (item ∷ items) = do
    c ← handle_incoming_request (handshake_options h item.received_at) item.request
    cs ← receive_each items
    return (c ∷ cs)

  unfoldable pub receive_requests : Result Fault (List ReceivedRequest) → M (List ConnectionRecord)
  receive_requests received = do
    account ← require_local_account h
    items ← lift received
    receive_each items

  unfoldable pub handle_event : ReceivedEvent → M ConnectionRecord
  handle_event (ReceivedEvent.request at r) = handle_incoming_request (handshake_options h at) r
  handle_event (ReceivedEvent.accept at a) = handle_accept (handshake_options h at) a
  handle_event (ReceivedEvent.reject at r) = handle_reject (handshake_options h at) r

  unfoldable pub handle_each : List ReceivedEvent → M (List ConnectionRecord)
  handle_each [] = return []
  handle_each (event ∷ events) = do c ← handle_event event; cs ← handle_each events; return (c ∷ cs)

  unfoldable pub receive_events : Result Fault (List ReceivedEvent) → M (List ConnectionRecord)
  receive_events received = do
    account ← require_local_account h
    events ← lift received
    handle_each events

-- A call of the manager.
pub data Call : Type 0 where
  request_connection : RemoteIdentity → Call
  poll_requests : Result Fault (List ReceivedRequest) → Call
  poll_events : Result Fault (List ReceivedEvent) → Call
  approve : (request_id : String) → Call
  decline : (request_id : String) → Call
  accepted : ConnectionAccept → Call
  refused : ConnectionReject → Call
  list_all : Call

abbrev one : M ConnectionRecord → M (List ConnectionRecord)
one m = m >>= λ c. return (c ∷ [])

unfoldable pub perform : Host → Call → M (List ConnectionRecord)
perform h (Call.request_connection remote) = one (create_handshake_request h remote)
perform h (Call.poll_requests received) = receive_requests h received
perform h (Call.poll_events received) = receive_events h received
perform h (Call.approve k) = one (accept_connection h k)
perform h (Call.decline k) = one (reject_connection h k none)
perform h (Call.accepted a) = one (handle_accept h a)
perform h (Call.refused r) = one (handle_reject h r)
perform h Call.list_all = load_all

-- Any number of calls one after the other, whether they succeed or throw.
unfoldable pub perform_all : Host → List Call → World → World
perform_all h [] w = w
perform_all h (call ∷ calls) w = perform_all h calls (perform h call w).1
