-- ===== src/Connection/Handshake/Operations.antt =====
-- Each operation of the handshake keeps a good world, whether it succeeds or throws.
use teti_bot.Base.{
  String, refl, inl, inr, Option, none, some, ◌==◌, number_equality, text_equality, Bool-cases,
}
use teti_bot.Connection.Types.{
  ConnectionRequest, ConnectionAccept, ConnectionReject, ConnectionRecord, apply_patch,
  is_confirmed,
}
use teti_bot.Connection.World.{RemoteIdentity, Host, M}
use teti_bot.Connection.Handshake.{
  accepted_patch, rejected_patch, outgoing_record, incoming_record, return_or,
  create_handshake_request, handle_incoming_request, receive_new, accept_connection,
  reject_connection, confirmed_time, handle_accept, handle_reject, store_update, store_upsert,
  answer_request,
}
use teti_bot.Connection.Handshake.Invariant.{
  Keeps, Keeps-return, Keeps-throw, Keeps-lift, Keeps-load_all, Keeps-throw_if, Keeps-tick,
  Keeps-send, Keeps-bind, Keeps-account, Keeps-connection, Keeps-request_id, Keeps-upsert,
  Keeps-update, Keeps-confirm,
}

module _ (h : Host) where
  pub Keeps-upsert_outgoing :
      (remote : RemoteIdentity) (request : ConnectionRequest) (at : String)
      → Keeps h (store_upsert h (outgoing_record remote request at))
  unfolding is_confirmed
  Keeps-upsert_outgoing remote request at = Keeps-upsert h (outgoing_record remote request at) refl

  pub Keeps-upsert_incoming :
      (request : ConnectionRequest) (at : String)
      → Keeps h (store_upsert h (incoming_record request at))
  unfolding is_confirmed
  Keeps-upsert_incoming request at = Keeps-upsert h (incoming_record request at) refl

  pub Keeps-update_accepted : (k at : String) → Keeps h (store_update h k (accepted_patch at))
  unfolding is_confirmed apply_patch
  Keeps-update_accepted k at = Keeps-update h k (accepted_patch at) (λ c. refl)

  pub Keeps-update_rejected : (k at : String) → Keeps h (store_update h k (rejected_patch at))
  unfolding is_confirmed apply_patch
  Keeps-update_rejected k at = Keeps-update h k (rejected_patch at) (λ c. refl)

pub ruleset keeps_rules = (
  Keeps-return, Keeps-throw, Keeps-lift, Keeps-load_all, Keeps-throw_if, Keeps-tick, Keeps-send,
  Keeps-bind, Keeps-account, Keeps-connection, Keeps-request_id, Keeps-confirm,
  Keeps-upsert_outgoing, Keeps-upsert_incoming, Keeps-update_accepted, Keeps-update_rejected,
)

module _ (h : Host) where
  pub Keeps-create : (remote : RemoteIdentity) → Keeps h (create_handshake_request h remote)
  unfolding create_handshake_request
  Keeps-create remote = search keeps_rules depth 20

  pub Keeps-return_or :
      (o : Option ConnectionRecord) (m : M ConnectionRecord) → Keeps h m → Keeps h (return_or o m)
  Keeps-return_or none m k = k
  Keeps-return_or (some c) m k = Keeps-return h c

  pub Keeps-receive_new : (request : ConnectionRequest) → Keeps h (receive_new h request)
  unfolding receive_new
  Keeps-receive_new request = search keeps_rules depth 20

  pub Keeps-incoming : (request : ConnectionRequest) → Keeps h (handle_incoming_request h request)
  unfolding handle_incoming_request
  Keeps-incoming request = search (keeps_rules, Keeps-return_or, Keeps-receive_new) depth 20

  pub Keeps-accept : (k : String) → Keeps h (accept_connection h k)
  unfolding accept_connection answer_request
  Keeps-accept k = search keeps_rules depth 30

  pub Keeps-reject : (k : String) (reason : Option String) → Keeps h (reject_connection h k reason)
  unfolding reject_connection
  Keeps-reject k reason = search keeps_rules depth 30

  pub Keeps-confirmed_time : (created_at : String) → Keeps h (confirmed_time h created_at)
  Keeps-confirmed_time created_at = elim (Bool-cases (created_at == "")) [
    | inl e ↦ rw e (Keeps-tick h h.now)
    | inr e ↦ rw e (Keeps-return h created_at)
  ]

  pub Keeps-handle_accept : (accept : ConnectionAccept) → Keeps h (handle_accept h accept)
  unfolding handle_accept
  Keeps-handle_accept accept = search (keeps_rules, Keeps-confirmed_time) depth 30

  pub Keeps-handle_reject : (reject : ConnectionReject) → Keeps h (handle_reject h reject)
  unfolding handle_reject
  Keeps-handle_reject reject = search keeps_rules depth 30
