-- ===== src/Application/Sending.antt =====
-- application/manager.ts: what a call that sends an envelope has sent.
use teti_bot.Json.{Extra}
use teti_bot.Application.Types.{
  MessageType, Envelope, Fault, unauthorized, no_account, not_found, not_confirmed, not_sent,
}
use teti_bot.Effects.{
  ◌>>=◌, ◌>>◌, >>=-ok, return, lift, gets, modify, throw_if, throw_if-ok, lift-ok, gets-ok,
  return-ok, modify-ok, throw,
}
use teti_bot.Application.Manager.{
  Host, World, M, Outgoing, send_envelope, tick, or_throw, authorize, require_confirmed, deliver,
}
use teti_bot.Application.{
  parse_envelope, validate_envelope, create_envelope, serialize_envelope, parse-serialize_envelope,
  >>=-eq-ok, ok_injective, subst,
}
use teti_bot.Application.Encoding.{encode}
use teti_bot.Base.{
  ℕ, suc, String, ◌≡◌, refl, sym, ap, ◌∙◌, Bool, true, false, not, Option, none, some, [], ◌∷◌,
  ◌++◌, ◌==◌, number_equality, text_equality, Result, ok, find,
}
use teti_bot.Connection.Protocol.{Account, truthy}
use teti_bot.Connection.Types.{ConnectionRecord, is_confirmed}

abbrev later : World → World
later w = record w { ticks = suc w.ticks }

abbrev with_sent : Outgoing → World → World
with_sent m w = record w { outbox = w.outbox ++ m ∷ []; ticks = suc w.ticks }

or_throw-ok :
    {A : Type 0} (f : Fault) (o : Option A) (w w' : World) (a : A)
    → or_throw f o w ≡ (ok a, w')
    → (o ≡ some a) × (w' ≡ w)
unfolding throw return
or_throw-ok f none w w' a run = cc
or_throw-ok f (some b) w w' a run = (cc, cc)

not-false : (b : Bool) → not b ≡ false → b ≡ true
not-false true h = refl
not-false false h = cc

tick-ok :
    {A : Type 0} (f : ℕ → A) (w w' : World) (a : A)
    → tick f w ≡ (ok a, w')
    → (f w.ticks ≡ a) × (w' ≡ later w)
unfolding tick
tick-ok f w w' a run = (cc, cc)

module _ (h : Host) where
  authorize-ok :
      (peer : String) (w w' : World) (u : Unit {0})
      → authorize h peer w ≡ (ok u, w')
      → (h.authorizes w.ticks peer ≡ true) × (w' ≡ later w)
  unfolding authorize
  authorize-ok peer w w' u run =
      let (allowed, w₁, first, last) =
        >>=-ok (tick (λ t. h.authorizes t peer)) (λ b. throw_if (not b) unauthorized) w run in
      let (value, at) = tick-ok (λ t. h.authorizes t peer) w w₁ allowed first in
      let (passes, same) = throw_if-ok (not allowed) unauthorized w₁ last in
      (value ∙ not-false allowed passes, same ∙ at)

  require_confirmed-ok :
      (request_id : String) (w w' : World) (c : ConnectionRecord)
      → require_confirmed h request_id w ≡ (ok c, w')
      → (find (λ c. c.request_id == request_id) w.connections ≡ some c)
        × (is_confirmed c ≡ true)
        × (w' ≡ w)
  unfolding require_confirmed
  require_confirmed-ok request_id w w' c run =
      let (cs, w₁, got, rest) =
        >>=-ok (gets (λ w. w.connections))
          (λ cs. or_throw not_found (find (λ c. c.request_id == request_id) cs) >>= λ c.
            throw_if (not (is_confirmed c)) not_confirmed >> return c)
          w run in
      let (cs_are, e₁) = gets-ok (λ w. w.connections) w got in
      let (c', w₂, chosen, checked) =
        >>=-ok (or_throw not_found (find (λ c. c.request_id == request_id) cs))
          (λ c. throw_if (not (is_confirmed c)) not_confirmed >> return c) w₁ rest in
      let (is_found, e₂) =
        or_throw-ok not_found (find (λ c. c.request_id == request_id) cs) w₁ w₂ c' chosen in
      let (u, w₃, passed, last) =
        >>=-ok (throw_if (not (is_confirmed c')) not_confirmed) (λ _. return c') w₂ checked in
      let (passes, e₃) = throw_if-ok (not (is_confirmed c')) not_confirmed w₂ passed in
      let (same, e₄) = return-ok c' w₃ last in
      (
        subst (λ l. find (λ c. c.request_id == request_id) l ≡ some c) (sym cs_are)
            (is_found ∙ ap some same),
        subst (λ x. is_confirmed x ≡ true) same (not-false (is_confirmed c') passes),
        e₄ ∙ (e₃ ∙ (e₂ ∙ e₁)),
      )

  deliver-ok :
      (m : Outgoing) (w w' : World) (u : Unit {0}) → deliver h m w ≡ (ok u, w') → w' ≡ with_sent m w
  unfolding deliver
  deliver-ok m w w' u run =
      let (done, w₁, first, others) =
        >>=-ok (tick (λ t. h.delivers t m))
          (λ b. throw_if (not b) not_sent >> modify (λ w. record w { outbox = w.outbox ++ m ∷ [] }))
          w run in
      let (value, at) = tick-ok (λ t. h.delivers t m) w w₁ done first in
      let (u', w₂, passed, last) =
        >>=-ok (throw_if (not done) not_sent)
          (λ _. modify (λ w. record w { outbox = w.outbox ++ m ∷ [] })) w₁ others in
      let (passes, same) = throw_if-ok (not done) not_sent w₁ passed in
      let add : World → World = λ x. record x { outbox = x.outbox ++ m ∷ [] } in
      modify-ok add w₂ last ∙ ap add (same ∙ at)

module _ (h : Host) (request_id : String) (message_type : MessageType) (payload : Extra)
    (attachment : Option String) where
  -- One message was sent, to the address of the confirmed connection, whose peer was authorised, and its text
  -- is read as the envelope that was returned.
  pub record IsSent (w : World) (e : Envelope) (w' : World) : Type 0 where
    pub account : Account
    pub local : h.account ≡ some account
    pub sender : e.from_teti_id ≡ account.id
    pub connection : ConnectionRecord
    pub known : find (λ c. c.request_id == request_id) w.connections ≡ some connection
    pub confirmed : is_confirmed connection ≡ true
    pub authorized : h.authorizes w.ticks connection.remote_teti_id ≡ true
    pub message : Outgoing
    pub outbox : w'.outbox ≡ w.outbox ++ message ∷ []
    pub address : message.peer_address ≡ connection.remote_address
    pub read : parse_envelope h.format message.text ≡ ok e
    pub content : (e.message_type ≡ message_type) × (e.payload ≡ payload)
    pub tracker : w'.processed ≡ w.processed

  abbrev outgoing : Account → ConnectionRecord → String → Outgoing
  outgoing account c text = record {
    account_id = account.chatmail_account_id;
    peer_address = c.remote_address;
    peer_public_key = truthy c.remote_public_key;
    text = text;
    attachment = attachment;
  }

  abbrev post : Account → ConnectionRecord → Result Fault Envelope → M Envelope
  post account c made = do
    e ← lift made
    text ← lift (serialize_envelope h.format e)
    deliver h (outgoing account c text)
    return e

  -- The end of the call, from the envelope that was made.
  post-ok :
      (account : Account) (c : ConnectionRecord) (made : Result Fault Envelope) (w w' : World)
      (e : Envelope)
      → post account c made w ≡ (ok e, w')
      → (made ≡ ok e)
        × (text : String) × (serialize_envelope h.format e ≡ ok text)
        × (w' ≡ with_sent (outgoing account c text) w)
  post-ok account c made w w' e run =
      let (e₀, w₁, r, others) = >>=-ok (lift made) _ w run in
      let (is_made, at₁) = lift-ok made w r in
      let (text, w₂, r₂, others₂) = >>=-ok (lift (serialize_envelope h.format e₀)) _ w₁ others in
      let (written, at₂) = lift-ok (serialize_envelope h.format e₀) w₁ r₂ in
      let (u, w₃, r₃, last) = >>=-ok (deliver h (outgoing account c text)) _ w₂ others₂ in
      let at₃ = deliver-ok h (outgoing account c text) w₂ w₃ u r₃ in
      let (same, at₄) = return-ok e₀ w₃ last in
      (
        is_made ∙ ap ok same,
        text,
        subst (λ x. serialize_envelope h.format x ≡ ok text) same written,
        at₄ ∙ (at₃ ∙ ap (with_sent (outgoing account c text)) (at₂ ∙ at₁)),
      )

  made-content :
      (account : Account) (message_id created_at : String) (e : Envelope)
      → create_envelope h.format message_type account.id payload message_id created_at ≡ ok e
      → (e.from_teti_id ≡ account.id) × (e.message_type ≡ message_type) × (e.payload ≡ payload)
  unfolding create_envelope
  made-content account message_id created_at e made =
      let (_, _, same) = >>=-eq-ok (validate_envelope h.format _) (λ _. ok _) made in
      let is_it = ok_injective (sym same) in
      (ap (λ x. x.from_teti_id) is_it, ap (λ x. x.message_type) is_it, ap (λ x. x.payload) is_it)

  -- A call that returns has sent one such message, where `JSON.parse` reads what `JSON.stringify` wrote of
  -- the envelope.
  pub send_envelope-IsSent :
      (w w' : World) (e : Envelope)
      → h.format.parse (h.format.stringify (encode e)) ≡ some (encode e)
      → send_envelope h request_id message_type payload attachment w ≡ (ok e, w')
      → IsSent w e w'
  unfolding send_envelope
  send_envelope-IsSent w w' e read run =
      let (account, w₁, has_account, r₁) = >>=-ok (or_throw no_account h.account) _ w run in
      let (local, e₁) = or_throw-ok no_account h.account w w₁ account has_account in
      let (c, w₂, required, r₂) = >>=-ok (require_confirmed h request_id) _ w₁ r₁ in
      let (known, confirmed, e₂) = require_confirmed-ok h request_id w₁ w₂ c required in
      let (u, w₃, allowed, r₃) = >>=-ok (authorize h c.remote_teti_id) _ w₂ r₂ in
      let (authorized, e₃) = authorize-ok h c.remote_teti_id w₂ w₃ u allowed in
      let (message_id, w₄, t₁, r₄) = >>=-ok (tick h.message_id) _ w₃ r₃ in
      let (_, e₄) = tick-ok h.message_id w₃ w₄ message_id t₁ in
      let (created_at, w₅, t₂, r₅) = >>=-ok (tick h.now) _ w₄ r₄ in
      let (_, e₅) = tick-ok h.now w₄ w₅ created_at t₂ in
      let (made, text, written, sent) =
        post-ok account c
          (create_envelope h.format message_type account.id payload message_id created_at) w₅ w' e
          r₅ in
      let (sender, kind, same_payload) = made-content account message_id created_at e made in
      let at₂ = e₂ ∙ e₁ in
      let at₅ = e₅ ∙ ap later (e₄ ∙ ap later (e₃ ∙ ap later at₂)) in
      let at_end = sent ∙ ap (with_sent (outgoing account c text)) at₅ in
      record {
        account = account;
        local = local;
        sender = sender;
        connection = c;
        known = subst (λ x. find (λ c. c.request_id == request_id) x.connections ≡ some c) e₁ known;
        confirmed = confirmed;
        authorized = subst (λ x. h.authorizes x.ticks c.remote_teti_id ≡ true) at₂ authorized;
        message = outgoing account c text;
        outbox = ap (λ x. x.outbox) at_end;
        address = refl;
        read = parse-serialize_envelope h.format e text read written;
        content = (kind, same_payload);
        tracker = ap (λ x. x.processed) at_end;
      }
