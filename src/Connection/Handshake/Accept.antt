-- ===== src/Connection/Handshake/Accept.antt =====
-- `acceptConnection`: what a success has done, and what a failed delivery leaves behind.
use teti_bot.Base.{
  suc, String, ◌≡◌, refl, ap, ◌∙◌, false, some, number_equality, text_equality, ok, err, true, not,
  Result, ◌++◌, ◌∷◌, >>-eq-ok, [], sym, subst, arith,
}
use teti_bot.Base.{is_blank, ==_refl}
use teti_bot.Connection.Types.{ConnectionState, ConnectionAccept, ConnectionRecord, apply_patch}
use teti_bot.Connection.Protocol.{
  Account, not_pending, not_delivered, create_accept, Fault, validate_accept, missing,
}
use teti_bot.Connection.Storage.{Connections, update}
use teti_bot.Connection.Storage.Ids.{lookup}
use teti_bot.Connection.Storage.Laws.{update_lem}
use teti_bot.Connection.World.{
  Payload, Message, Host, World, ◌>>=◌, return, throw, lift, load_all, tick, send, store_update,
  require_connection, require_local_account, require_request_id,
}
use teti_bot.Connection.Handshake.{
  accepted_patch, is_pending, accept_connection, throw_if, confirmed_patch, answer_request,
}
use teti_bot.Connection.Handshake.Invariant.{IsGood}
use teti_bot.Connection.World.Laws.{
  >>=-ok, account-ok, throw_if-ok, connection-ok, lift-ok, store_update-ok, send-ok,
}
use teti_bot.Connection.Handshake.Confirm.{confirm_peer_connection_lem}

-- The message by which the request with id `k` is accepted.
abbrev pub accept_message : Account → ConnectionRecord → ConnectionAccept → Message
accept_message account c accept = record {
  account_id = account.chatmail_account_id;
  to_address = c.remote_address;
  to_public_key = c.request.public_key;
  payload = Payload.accept accept;
}

create_accept-request_id :
    (a : Account) (k nonce at : String) {accept : ConnectionAccept}
    → create_accept a k nonce at ≡ ok accept
    → accept.request_id ≡ k
unfolding create_accept
create_accept-request_id a k nonce at e =
    let (_, made) = >>-eq-ok (validate_accept _) _ e in sym (ap request_id_of made)
  where
    request_id_of : Result Fault ConnectionAccept → String
    request_id_of (ok x) = x.request_id
    request_id_of (err f) = k

module _ (h : Host) (k : String) (account : Account) where
  -- An accept in a store where the id has a record that is not pending throws, and changes nothing.
  accept_connection-not_pending :
      (w : World) (c : ConnectionRecord)
      → h.account ≡ some account
      → is_blank k ≡ false
      → lookup k w.store ≡ some c
      → is_pending c.state ≡ false
      → accept_connection h k w ≡ (err (not_pending k), w)
  unfolding accept_connection ◌>>=◌ require_request_id require_local_account require_connection
      return throw load_all
  accept_connection-not_pending w c acc blank found state =
      rw blank (rw acc (rw found (rw state refl)))

  -- In a good world with a local account and a pending request under an id that is not blank, where the
  -- record passes validation as accepted and so does the answer: if the adapter fails to deliver the
  -- answer, the accept throws, sends nothing and leaves the record in the state `accepted`, and the next
  -- accept of the request is refused and changes nothing.
  pub accept_connection-undelivered :
      (w : World) (c u : ConnectionRecord) (cs : Connections) (accept : ConnectionAccept)
      → IsGood h w
      → h.account ≡ some account
      → is_blank k ≡ false
      → lookup k w.store ≡ some c
      → c.state ≡ ConnectionState.pending_approval
      → update h.is_date k (accepted_patch (h.now w.ticks)) w.store ≡ ok (u, cs)
      → create_accept account k (h.nonce (suc w.ticks)) (h.now w.ticks) ≡ ok accept
      → h.delivers (suc (suc w.ticks)) (accept_message account c accept) ≡ false
      → (w' : World) × (accept_connection h k w ≡ (err not_delivered, w'))
        × (lookup k w'.store ≡ some u)
        × (u.state ≡ ConnectionState.accepted)
        × (w'.outbox ≡ w.outbox)
        × (accept_connection h k w' ≡ (err (not_pending k), w'))
  unfolding accept_connection answer_request ◌>>=◌ require_request_id require_local_account
      require_connection return load_all tick store_update lift send apply_patch
  accept_connection-undelivered w c u cs accept g acc blank found state upd made lost =
      let w' : World = record w { store = cs; ticks = suc (suc (suc w.ticks)) } in
      let safe =
        update_lem h.is_date k (accepted_patch (h.now w.ticks)) w.store cs u k g.distinct g.valid
          upd in
      let there : lookup k cs ≡ some u = safe.3 ∙ rw (==_refl k) refl in
      let accepted = ap (λ x. x.state) (safe.2) in
      (
        w',
        rw blank (rw acc (rw found (rw state (rw upd (rw made (rw lost refl)))))),
        there,
        accepted,
        refl,
        accept_connection-not_pending w' u acc blank there (ap is_pending accepted),
      )

module _ (h : Host) (k : String) where
  answer_request-sends :
      (a : Account) (c : ConnectionRecord) (at : String) (w w' : World) (new : ConnectionRecord)
      → answer_request h a c k at w ≡ (ok new, w')
      → (accept : ConnectionAccept) × (w'.outbox ≡ w.outbox ++ accept_message a c accept ∷ [])
        × (accept.request_id ≡ k)
        × (new.state ≡ ConnectionState.confirmed)
  unfolding answer_request apply_patch tick
  answer_request-sends a c at w w' new e =
      let (nonce, w₁, e₁, r₁) = >>=-ok (tick h.nonce) _ w e in
      let (accept, w₂, e₂, r₂) = >>=-ok (lift (create_accept a k nonce at)) _ w₁ r₁ in
      let (_, w₃, e₃, r₃) = >>=-ok (send h (accept_message a c accept)) _ w₂ r₂ in
      let (later, w₄, e₄, r₄) = >>=-ok (tick h.now) _ w₃ r₃ in
      let (made, same) = lift-ok (create_accept a k nonce at) w₁ e₂ in
      let (old, done) = confirm_peer_connection_lem h k (confirmed_patch later) w₄ w' new r₄ in
      let before : w₂.outbox ≡ w.outbox = ap (λ x. x.outbox) same ∙ sym (ap (λ x. x.1.outbox) e₁) in
      let sent = ap (λ x. x.outbox) (send-ok h (accept_message a c accept) w₂ e₃) in
      (
        accept,
        done.4
            ∙ (sym (ap (λ x. x.1.outbox) e₄)
                ∙ (sent ∙ ap (λ l. l ++ accept_message a c accept ∷ []) before)),
        create_accept-request_id a k nonce at made,
        ap (λ x. x.state) (done.1),
      )

  -- A successful accept found a pending request under the id, sent its peer one accept of that request
  -- and nothing else, and returns the record confirmed.
  pub accept_connection-sends :
      (w w' : World) (new : ConnectionRecord)
      → accept_connection h k w ≡ (ok new, w')
      → (c : ConnectionRecord) × (a : Account) × (accept : ConnectionAccept) × (lookup k w.store
          ≡ some c)
        × (is_pending c.state ≡ true)
        × (w'.outbox ≡ w.outbox ++ accept_message a c accept ∷ [])
        × (accept.request_id ≡ k)
        × (new.state ≡ ConnectionState.confirmed)
  unfolding accept_connection require_request_id tick
  accept_connection-sends w w' new e =
      let (_, w₁, e₁, r₁) = >>=-ok (require_request_id k) _ w e in
      let (a, w₂, e₂, r₂) = >>=-ok (require_local_account h) _ w₁ r₁ in
      let (c, w₃, e₃, r₃) = >>=-ok (require_connection k) _ w₂ r₂ in
      let (_, w₄, e₄, r₄) = >>=-ok (throw_if (not (is_pending c.state)) (not_pending k)) _ w₃ r₃ in
      let (at, w₅, e₅, r₅) = >>=-ok (tick h.now) _ w₄ r₄ in
      let (u, w₆, e₆, r₆) = >>=-ok (store_update h k (accepted_patch at)) _ w₅ r₅ in
      let (accept, sent, id, state) = answer_request-sends a c at w₆ w' new r₆ in
      let start : w₂ ≡ w =
        (account-ok h w₁ e₂).1 ∙ (throw_if-ok (is_blank k) (missing "requestId") w e₁).1 in
      let (found, w₃_same) = connection-ok k w₂ e₃ in
      let (pending, w₄_same) = throw_if-ok (not (is_pending c.state)) (not_pending k) w₃ e₄ in
      let (cs, _, w₆_same) = store_update-ok h k (accepted_patch at) w₅ e₆ in
      let before : w₆.outbox ≡ w.outbox =
        ap (λ x. x.outbox) w₆_same
        ∙ (sym (ap (λ x. x.1.outbox) e₅) ∙ ap (λ x. x.outbox) (w₄_same ∙ (w₃_same ∙ start))) in
      (
        c,
        a,
        accept,
        subst (λ x. lookup k x.store ≡ some c) start found,
        ground arith,
        sent ∙ ap (λ l. l ++ accept_message a c accept ∷ []) before,
        id,
        state,
      )
