-- ===== src/Application/Tests.antt =====
-- A confirmed peer whose message comes twice, and one whose authorisation is withdrawn.
use teti_bot.Application.{
  parse_envelope, validate_envelope, validate_fields, check_envelope, create_envelope,
  serialize_envelope,
}
use teti_bot.Application.Encoding.{encode, as_text, read_fields}
use teti_bot.Application.Payload.{
  validate_payload, reject_unknown_keys, validate_presence, validate_versions, are_versions,
  validate_lease,
}
use teti_bot.Json.{Json, str, int, arr, cons, nil, obj, property, properties_of}
use teti_bot.Application.Types.{
  Envelope, Format, presence, unauthorized, require_bounded_string, reject_private,
  require_timestamp,
}
use teti_bot.Base.{is_blank, utf8_length, utf8_size, or_else}
use teti_bot.Identity.{is_canonical_public_id, is_public_id_codes}
use teti_bot.Connection.Types.{
  ConnectionRecord, ConnectionState, Direction, is_confirmed, is_archived,
}
use teti_bot.Application.Manager.{
  Host, World, Mail, Received, send_envelope, authorize, require_confirmed, deliver, receive_each,
  opened, handle, tick, mark_processed, add_id, is_sender,
}
use teti_bot.Base.{
  ℕ, String, ◌≡◌, refl, Bool, true, none, some, List, [], ◌∷◌, ◌==◌, ◌!=◌, number_equality,
  text_equality, if◌then◌else◌, ok, err,
}
use teti_bot.Effects.{◌>>=◌, return, throw, lift, gets, modify}
use teti_bot.Connection.Protocol.{Account}
use teti_bot.Application.Manager.{receive_text}
use teti_bot.Application.Told.{AreTold, receive_each-AreTold}
use teti_bot.Application.Receiving.{told}
use teti_bot.Application.Again.{receive_each-again}
use teti_bot.Application.Lost.{IsNotOf, later_told, receive_each-loses}
use teti_bot.Base.{All}
use teti_bot.Application.Header.{inspect_envelope_header, own_header, serialize_envelope-read}
use teti_bot.Application.Sending.{IsSent, send_envelope-IsSent}

abbrev connection : (request_id peer : String) → ConnectionRecord
connection request_id peer = record {
  version = 1;
  request_id = request_id;
  state = ConnectionState.confirmed;
  direction = Direction.incoming;
  remote_teti_id = peer;
  remote_address = "peer@chat";
  remote_public_key = none;
  request = record {
    version = 1;
    request_id = request_id;
    from_teti_id = peer;
    from_address = "peer@chat";
    public_key = none;
    profile = [];
    created_at = "2025-12-31T00:00:00Z";
    nonce = "n";
    extra = [];
  };
  created_at = "now";
  updated_at = "now";
  accepted_at = none;
  rejected_at = none;
  confirmed_at = none;
  network_relationship = none;
  extra = [];
}

abbrev third : ConnectionRecord
third = connection "request-2" "teti_third0000"

abbrev older : ConnectionRecord
older = connection "request-0" "teti_peer00000"

abbrev account : Account
account = record {
  id = "teti_local0000";
  address = "local@chat";
  chatmail_account_id = 7;
  public_key = none;
  public_profile = [];
}

abbrev hello : (from_teti_id message_id : String) → Envelope
hello from_teti_id message_id = record {
  version = 2;
  message_type = presence;
  message_id = message_id;
  from_teti_id = from_teti_id;
  created_at = "2026-01-01T00:00:00Z";
  payload =
      ("status", str "available")
      ∷ ("timestamp", str "2026-01-01T00:00:00Z")
      ∷ ("collaborationProtocolEpoch", int 2)
      ∷ ("taskProtocolVersions", arr (cons (int 7) nil))
      ∷ ("passportSchemaVersions", arr (cons (int 4) nil))
      ∷ [];
}

-- The texts of this test are the ids of the envelopes.
abbrev id_text : Json → String
id_text (obj m) = or_else (as_text (property "messageId" (properties_of m))) ""
id_text _ = ""

abbrev format : Format
format = record {
  stringify = id_text;
  parse = λ t. some (
      encode (
        if t == "m-1"
        then hello "teti_third0000" "m-1"
        else if t == "m-2"
        then hello "teti_peer00000" "m-2"
        else hello "teti_local0000" "m-3"));
  is_date = λ _. true;
  payload_ok = λ _ _. true;
}

abbrev host : (allows : String → Bool) → Host
host allows = record {
  account = some account;
  format = format;
  authorizes = λ _ id. allows id;
  message_id = λ _. "m-3";
  now = λ _. "2026-01-01T00:00:00Z";
  delivers = λ _ _. true;
}

abbrev world : World
world = record { connections = third ∷ older ∷ []; processed = []; outbox = []; ticks = 0 }

abbrev mail : ℕ → String → Mail
mail n text = record { message_id = n; from_address = none; text = some text }

abbrev mails : List Mail
mails = mail 1 "m-1" ∷ mail 2 "m-1" ∷ mail 3 "m-2" ∷ []

abbrev mails_of_two : List Mail
mails_of_two = mail 1 "m-1" ∷ mail 3 "m-2" ∷ []

computes : Unit {0}
unfolding receive_each receive_text opened handle authorize tick mark_processed add_id is_sender
    parse_envelope validate_envelope validate_fields check_envelope read_fields require_timestamp
    reject_unknown_keys validate_payload validate_presence validate_versions are_versions
    validate_lease is_canonical_public_id is_confirmed is_archived is_blank require_bounded_string
    reject_private utf8_length utf8_size is_public_id_codes send_envelope require_confirmed
    create_envelope serialize_envelope deliver ◌>>=◌ return throw lift gets modify
computes = tt

abbrev after : World
after = record world { processed = "m-1" ∷ "m-2" ∷ []; ticks = 3 }

abbrev results : List Received
results =
    told (host (λ _. true)) (mail 1 "m-1") (hello "teti_third0000" "m-1") third
    ∷ told (host (λ _. true)) (mail 3 "m-2") (hello "teti_peer00000" "m-2") older
    ∷ []

received : receive_each (host (λ _. true)) mails world ≡ (ok results, after)
unfolding computes
received = refl

receive_each-AreTold_example : AreTold (host (λ _. true)) world mails results after
receive_each-AreTold_example =
    receive_each-AreTold (host (λ _. true)) mails world after results received

receive_each-again_example :
    (t : ℕ) × (receive_each (host (λ _. true)) mails after ≡ (ok [], record after { ticks = t }))
receive_each-again_example =
    receive_each-again (host (λ _. true)) mails world after results (λ _ _. refl) received

-- The second peer is no longer authorised.
abbrev withdrawn : Host
withdrawn = host (λ id. id != "teti_peer00000")

abbrev after_throw : World
after_throw = record world { processed = "m-1" ∷ []; ticks = 2 }

thrown :
    receive_each withdrawn (mail 1 "m-1" ∷ mail 3 "m-2" ∷ []) world
    ≡ (err unauthorized, after_throw)
unfolding computes
thrown = refl

receive_each-loses_example :
    ((receive_each withdrawn (mail 1 "m-1" ∷ []) world).0
      ≡ ok (told withdrawn (mail 1 "m-1") (hello "teti_third0000" "m-1") third ∷ []))
    × All
        (IsNotOf "m-1")
        (later_told withdrawn ((third ∷ older ∷ [], mails_of_two) ∷ ([], mails) ∷ []) after_throw)
unfolding computes
receive_each-loses_example =
    receive_each-loses withdrawn (mail 1 "m-1") world (hello "teti_third0000" "m-1") third refl refl
      refl (mail 3 "m-2" ∷ []) after_throw unauthorized
      ((third ∷ older ∷ [], mails_of_two) ∷ ([], mails) ∷ []) thrown

abbrev sent_world : World
sent_world = record world {
  outbox =
      (record {
        account_id = 7;
        peer_address = "peer@chat";
        peer_public_key = none;
        text = "m-3";
        attachment = none;
      })
      ∷ [];
  ticks = 4;
}

send_envelope-IsSent_example :
    IsSent
      (host (λ _. true))
      "request-2"
      presence
      (hello "teti_local0000" "m-3").payload
      none
      world
      (hello "teti_local0000" "m-3")
      sent_world
unfolding computes
send_envelope-IsSent_example =
    send_envelope-IsSent (host (λ _. true)) "request-2" presence
      (hello "teti_local0000" "m-3").payload none world sent_world (hello "teti_local0000" "m-3")
      refl refl

abbrev own : Envelope
own = hello "teti_local0000" "m-3"

serialize_envelope-read_example :
    (parse_envelope format "m-3" ≡ ok own)
    × (inspect_envelope_header format "m-3" ≡ some (own_header own))
unfolding computes
serialize_envelope-read_example = serialize_envelope-read format own "m-3" refl refl
