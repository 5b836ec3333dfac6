-- ===== src/Connection/Manager/Invariant.antt =====
-- Every world that calls of the manager reach is good.
use teti_bot.Base.{String, Option, none, some, List, [], ◌∷◌, number_equality, text_equality}
use teti_bot.Connection.Protocol.{truthy}
use teti_bot.Connection.World.{Host, World, M}
use teti_bot.Connection.Handshake.Invariant.{IsGood, Keeps, Keeps-bind, Keeps-return}
use teti_bot.Connection.Handshake.Operations.{
  keeps_rules, Keeps-create, Keeps-incoming, Keeps-accept, Keeps-reject, Keeps-handle_accept,
  Keeps-handle_reject,
}
use teti_bot.Connection.Manager.{
  ReceivedRequest, ReceivedEvent, Call, fixed_clock, handshake_options, receive_each,
  receive_requests, handle_event, handle_each, receive_events, perform, perform_all,
}

module _ (h : Host) where
  -- The clock does not bear on what a good world is.
  Keeps-clock : {A : Type 0} (o : Option String) (m : M A) → Keeps (fixed_clock o h) m → Keeps h m
  Keeps-clock none m k = k
  Keeps-clock (some t) m k = record {
    at = λ w g.
        let r =
          k.at w
            (record { distinct = g.distinct; valid = g.valid; one_per_peer = g.one_per_peer }) in
        record { distinct = r.distinct; valid = r.valid; one_per_peer = r.one_per_peer };
  }

  Keeps-handle_event : (event : ReceivedEvent) → Keeps h (handle_event h event)
  unfolding handle_event
  Keeps-handle_event (ReceivedEvent.request at r) =
      Keeps-clock (truthy at) _ (Keeps-incoming (handshake_options h at) r)
  Keeps-handle_event (ReceivedEvent.accept at a) =
      Keeps-clock (truthy at) _ (Keeps-handle_accept (handshake_options h at) a)
  Keeps-handle_event (ReceivedEvent.reject at r) =
      Keeps-clock (truthy at) _ (Keeps-handle_reject (handshake_options h at) r)

  Keeps-handle_each : (events : List ReceivedEvent) → Keeps h (handle_each h events)
  unfolding handle_each
  Keeps-handle_each [] = search keeps_rules
  Keeps-handle_each (event ∷ events) =
      Keeps-bind h _ _ (Keeps-handle_event event)
        λ c. Keeps-bind h _ _ (Keeps-handle_each events) λ cs. Keeps-return h (c ∷ cs)

  Keeps-receive_each : (items : List ReceivedRequest) → Keeps h (receive_each h items)
  unfolding receive_each
  Keeps-receive_each [] = search keeps_rules
  Keeps-receive_each (item ∷ items) =
      let first =
        Keeps-clock (truthy item.received_at) _
          (Keeps-incoming (handshake_options h item.received_at) item.request) in
      Keeps-bind h _ _ first
        λ c. Keeps-bind h _ _ (Keeps-receive_each items) λ cs. Keeps-return h (c ∷ cs)

  pub Keeps-perform : (call : Call) → Keeps h (perform h call)
  unfolding perform receive_requests receive_events
  Keeps-perform (Call.request_connection remote) = search (keeps_rules, Keeps-create) depth 12
  Keeps-perform (Call.poll_requests received) = search (keeps_rules, Keeps-receive_each) depth 12
  Keeps-perform (Call.poll_events received) = search (keeps_rules, Keeps-handle_each) depth 12
  Keeps-perform (Call.approve k) = search (keeps_rules, Keeps-accept) depth 12
  Keeps-perform (Call.decline k) = search (keeps_rules, Keeps-reject) depth 12
  Keeps-perform (Call.accepted a) = search (keeps_rules, Keeps-handle_accept) depth 12
  Keeps-perform (Call.refused r) = search (keeps_rules, Keeps-handle_reject) depth 12
  Keeps-perform Call.list_all = search keeps_rules

  -- From a store of valid records with distinct request ids and at most one confirmed connection to
  -- each peer, any calls of the manager, whether they succeed or throw, leave such a store.
  pub perform_all-IsGood :
      (calls : List Call) (w : World) → IsGood h w → IsGood h (perform_all h calls w)
  unfolding perform_all
  perform_all-IsGood [] w g = g
  perform_all-IsGood (call ∷ calls) w g =
      perform_all-IsGood calls (perform h call w).1 ((Keeps-perform call).at w g)
