-- ===== src/Application/Manager.antt =====
-- core/application/manager.ts: sending and receiving of application envelopes. The outcomes of the messaging
-- adapter and of `authorizePeer` are those of `Host`; where there is no `authorizePeer` it is always true.
use teti_bot.Json.{Extra}
use teti_bot.Application.Types.{
  MessageType, Envelope, Format, Fault, no_account, not_found, not_confirmed, unauthorized,
  not_sent,
}
use teti_bot.Base.{
  any, ℕ, suc, String, Bool, true, not, ◌&&◌, ◌||◌, Option, none, some, List, [], ◌∷◌, ◌++◌, ◌==◌,
  number_equality, text_equality, if◌then◌else◌, Result, ok, err, find,
}
use teti_bot.Effects.{◌>>=◌, ◌>>◌, Effect, return, throw, lift, gets, modify, throw_if}
use teti_bot.Application.{parse_envelope, create_envelope, serialize_envelope}
use teti_bot.Connection.Types.{ConnectionRecord, is_confirmed}
use teti_bot.Connection.Protocol.{Account, truthy}
use teti_bot.Connection.Storage.{Connections}

pub record Outgoing : Type 0 where
  pub account_id : ℕ
  pub peer_address : String
  pub peer_public_key : Option String
  pub text : String
  pub attachment : Option String

-- A message that the adapter received.
pub record Mail : Type 0 where
  pub message_id : ℕ
  pub from_address : Option String
  pub text : Option String

-- What is told of a message; the result of the handler has the envelope's type, sender and payload.
pub record Received : Type 0 where
  pub envelope : Envelope
  pub connection : ConnectionRecord
  pub chatmail_message_id : ℕ

pub record Host : Type 0 where
  pub account : Option Account
  pub format : Format
  pub authorizes : ℕ → String → Bool
  pub message_id : ℕ → String
  pub now : ℕ → String
  pub delivers : ℕ → Outgoing → Bool

-- The store of connections, the ids that the tracker has, what was sent, and the calls of `Host`.
pub record World : Type 0 where
  pub connections : Connections
  pub processed : List String
  pub outbox : List Outgoing
  pub ticks : ℕ

abbrev pub M : Type 0 → Type 0
M A = Effect World Fault A

unfoldable pub tick : {A : Type 0} → (ℕ → A) → M A
tick f w = (ok (f w.ticks), record w { ticks = suc w.ticks })

-- `MemoryTetiMessageTracker`, and the list of `FileTetiMessageTracker`.
abbrev pub is_processed : String → List String → Bool
is_processed id ids = any (λ i. i == id) ids

unfoldable pub add_id : String → List String → List String
add_id id ids = if is_processed id ids then ids else ids ++ id ∷ []

unfoldable pub mark_processed : String → M (Unit {0})
unfolding add_id
mark_processed id = modify (λ w. record w { processed = add_id id w.processed })

abbrev pub or_throw : {A : Type 0} → Fault → Option A → M A
or_throw e none = throw e
or_throw e (some a) = return a

-- `!fromAddress || connection.remoteAddress === fromAddress`.
abbrev pub is_from : Option String → String → Bool
is_from none address = true
is_from (some sender) address = sender == "" || address == sender

unfoldable pub is_sender : Envelope → Option String → ConnectionRecord → Bool
is_sender e from_address c =
    is_confirmed c && c.remote_teti_id == e.from_teti_id && is_from from_address c.remote_address

abbrev pub text_of : Option String → Option String
text_of none = none
text_of (some t) = if t == "" then none else some t

abbrev pub cons_received : Option Received → List Received → List Received
cons_received none rs = rs
cons_received (some r) rs = r ∷ rs

module _ (h : Host) where
  unfoldable pub authorize : String → M (Unit {0})
  authorize peer = do allowed ← tick (λ t. h.authorizes t peer); throw_if (not allowed) unauthorized

  unfoldable pub require_confirmed : String → M ConnectionRecord
  require_confirmed request_id = do
    connections ← gets (λ w. w.connections)
    c ← or_throw not_found (find (λ c. c.request_id == request_id) connections)
    throw_if (not (is_confirmed c)) not_confirmed
    return c

  unfoldable pub deliver : Outgoing → M (Unit {0})
  deliver m = do
    done ← tick (λ t. h.delivers t m)
    throw_if (not done) not_sent
    modify (λ w. record w { outbox = w.outbox ++ m ∷ [] })

  unfoldable pub send_envelope :
      (request_id : String) → MessageType → Extra → (attachment : Option String) → M Envelope
  send_envelope request_id message_type payload attachment = do
    account ← or_throw no_account h.account
    c ← require_confirmed request_id
    authorize c.remote_teti_id
    message_id ← tick h.message_id
    created_at ← tick h.now
    e ← lift (create_envelope h.format message_type account.id payload message_id created_at)
    text ← lift (serialize_envelope h.format e)
    deliver (record {
      account_id = account.chatmail_account_id;
      peer_address = c.remote_address;
      peer_public_key = truthy c.remote_public_key;
      text = text;
      attachment = attachment;
    })
    return e

  -- The end of a turn of the loop, with the connection that was found for the envelope.
  unfoldable pub handle : Mail → Envelope → Option ConnectionRecord → M (Option Received)
  handle mail e none = return none
  handle mail e (some c) = do
    authorize c.remote_teti_id
    seen ← gets (λ w. is_processed e.message_id w.processed)
    if seen then return none else (do
      mark_processed e.message_id
      return
          (some (record { envelope = e; connection = c; chatmail_message_id = mail.message_id })))

  unfoldable pub opened : Mail → Result Fault Envelope → M (Option Received)
  opened mail (err e) = return none
  opened mail (ok e) = do
    connections ← gets (λ w. w.connections)
    handle mail e (find (is_sender e mail.from_address) connections)

  unfoldable pub receive_text : Mail → Option String → M (Option Received)
  receive_text mail none = return none
  receive_text mail (some text) = opened mail (parse_envelope h.format text)

  -- The loop of `receiveApplicationEnvelopes`.
  unfoldable pub receive_each : List Mail → M (List Received)
  receive_each [] = return []
  receive_each (mail ∷ mails) = do
    r ← receive_text mail (text_of mail.text)
    rs ← receive_each mails
    return (cons_received r rs)

  unfoldable pub receive_envelopes : Result Fault (List Mail) → M (List Received)
  receive_envelopes messages = do
    account ← or_throw no_account h.account
    mails ← lift messages
    receive_each mails
