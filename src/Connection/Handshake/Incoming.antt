-- ===== src/Connection/Handshake/Incoming.antt =====
-- `handleIncomingRequest`: a request that is received again changes nothing.
use teti_bot.Base.{
  suc, ◌≡◌, refl, sym, ap, ◌∙◌, Option, none, some, number_equality, text_equality, Result, ok, err,
  subst,
}
use teti_bot.Base.{find, ==_refl}
use teti_bot.Connection.Types.{ConnectionRequest, ConnectionRecord}
use teti_bot.Connection.Protocol.{Fault, validate_request}
use teti_bot.Connection.Storage.{Connections, has_id, placed}
use teti_bot.Connection.Storage.Ids.{lookup, lookup-placed}
use teti_bot.Connection.Storage.Laws.{upsert-placed}
use teti_bot.Connection.World.{
  Host, World, M, ◌>>=◌, return, lift, load_all, tick, store_upsert, and_then,
}
use teti_bot.Connection.World.Laws.{>>=-ok, store_upsert-ok}
use teti_bot.Connection.Handshake.{
  return_or, is_confirmed_peer, incoming_record, receive_new, handle_incoming_request,
}

module _ (h : Host) (request : ConnectionRequest) where
  -- A valid request whose id is in the store is answered by the record there.
  known_id :
      (w : World) (c : ConnectionRecord)
      → validate_request request ≡ ok tt
      → lookup request.request_id w.store ≡ some c
      → handle_incoming_request h request w ≡ (ok c, w)
  unfolding handle_incoming_request ◌>>=◌ lift load_all return
  known_id w c valid found = rw valid (rw found refl)

  known_peer :
      (w : World) (c : ConnectionRecord)
      → validate_request request ≡ ok tt
      → lookup request.request_id w.store ≡ none
      → find (is_confirmed_peer request.from_teti_id) w.store ≡ some c
      → handle_incoming_request h request w ≡ (ok c, w)
  unfolding handle_incoming_request ◌>>=◌ lift load_all return
  known_peer w c valid new found = rw valid (rw new (rw found refl))

  -- A new request is stored, awaiting approval, under its id.
  receive_new_lem :
      (w w' : World) (c : ConnectionRecord)
      → receive_new h request w ≡ (ok c, w')
      → (lookup request.request_id w'.store ≡ some c)
        × (c ≡ incoming_record request (h.now w.ticks))
  unfolding receive_new ◌>>=◌ tick return
  receive_new_lem w w' c e =
      let at = h.now w.ticks in
      let new = incoming_record request at in
      let w₀ : World = record w { ticks = suc w.ticks } in
      let (_, w₁, stored, last) = >>=-ok (store_upsert h new) (λ _. return new) w₀ e in
      let (cs, upserted, left) = store_upsert-ok h new w₀ stored in
      let same : new ≡ c = cc in
      let stores : placed new w.store ≡ w'.store =
        upsert-placed h.is_date new w.store cs upserted
        ∙ (sym (ap (λ x. x.store) left) ∙ ap (λ x. x.1.store) last) in
      (
        subst (λ x. lookup request.request_id w'.store ≡ some x) same
            (subst (λ l. lookup request.request_id l ≡ some new) stores
              (lookup-placed request.request_id new w.store
                ∙ rw (==_refl request.request_id) refl)),
        sym same,
      )

  abbrev looked_up : Connections → M ConnectionRecord
  looked_up cs =
      return_or (find (has_id request.request_id) cs)
        (return_or (find (is_confirmed_peer request.from_teti_id) cs) (receive_new h request))

  settled :
      (w w' : World) (c : ConnectionRecord) (o p : Option ConnectionRecord)
      → validate_request request ≡ ok tt
      → lookup request.request_id w.store ≡ o
      → find (is_confirmed_peer request.from_teti_id) w.store ≡ p
      → return_or o (return_or p (receive_new h request)) w ≡ (ok c, w')
      → handle_incoming_request h request w' ≡ (ok c, w')
  unfolding return
  settled w w' c (some b) p valid found at e =
      subst (λ x. handle_incoming_request h request x ≡ (ok c, x)) (ap (λ x. x.1) e)
        (known_id w c valid (found ∙ (cc)))
  settled w w' c none (some b) valid found at e =
      subst (λ x. handle_incoming_request h request x ≡ (ok c, x)) (ap (λ x. x.1) e)
        (known_peer w c valid found (at ∙ (cc)))
  settled w w' c none none valid found at e = known_id w' c valid (receive_new_lem w w' c e).0

  validated :
      (w w' : World) (c : ConnectionRecord) (v : Result Fault (Unit {0}))
      → validate_request request ≡ v
      → and_then (v, w) (λ _. load_all >>= λ cs. looked_up cs) ≡ (ok c, w')
      → handle_incoming_request h request w' ≡ (ok c, w')
  unfolding ◌>>=◌ load_all
  validated w w' c (ok _) valid e = settled w w' c _ _ valid refl refl e
  validated w w' c (err f) valid e = cc

  -- A request that was handled, received a second time, gives the same record and changes nothing.
  pub handle_incoming_request-again :
      (w w' : World) (c : ConnectionRecord)
      → handle_incoming_request h request w ≡ (ok c, w')
      → handle_incoming_request h request w' ≡ (ok c, w')
  unfolding handle_incoming_request ◌>>=◌ load_all lift
  handle_incoming_request-again w w' c e = validated w w' c (validate_request request) refl e
