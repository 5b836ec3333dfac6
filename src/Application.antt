-- ===== src/Application.antt =====
-- core/protocol: the validation of application envelopes (validator.ts) and their texts (envelope.ts).
pub mod Types
pub mod Encoding
pub mod Payload
pub mod Manager
pub mod Receiving
pub mod Told
pub mod Again
pub mod Lost
pub mod Sending
pub mod Header
mod Tests
use teti_bot.Json.{Json, Extra, members_of, properties_of-members_of, property}
use teti_bot.Identity.{is_canonical_public_id}
use teti_bot.Application.Encoding.{
  fields_of, encode, as_integer, as_text, as_object, read_fields, read_fields-fields_of,
}
use teti_bot.Application.Types.{
  MessageType, Envelope, Format, Fault, require_bounded_string, require_timestamp, reject_private,
  utf8_size_of, application_protocol_version, max_message_id_bytes, max_envelope_bytes,
  protocol_error,
}
use teti_bot.Application.Payload.{validate_payload, reject_unknown_keys}
use teti_bot.Base.{
  ℕ, zero, suc, ◌+◌, ◌-◌, ◌≤◌, ◌<◌, String, ◌≡◌, refl, sym, ap, ◌∙◌, ◌≢◌, ◌↔◌, ◌⊎◌, inl, inr, Bool,
  true, false, not, ◌&&◌, ◌||◌, Option, none, some, List, [], ◌∷◌, ◌++◌, map, arith, ◌==◌, ◌!=◌,
  number_equality, text_equality, if◌then◌else◌, Result, ok, err, ◌>>=◌, ◌>>◌, All, Bool-cases,
  eq_iff, >>-eq-ok, fail_if, ltb, fail_if->>-eq-ok, subst, ok_injective, >>=-eq-ok,
}

abbrev envelope_fields : List String
envelope_fields = "version" ∷ "type" ∷ "messageId" ∷ "fromTetiId" ∷ "createdAt" ∷ "payload" ∷ []

module _ (f : Format) where
  unfoldable pub check_envelope : Envelope → Result Fault (Unit {0})
  unfolding require_bounded_string reject_private require_timestamp
  check_envelope e = do
    fail_if (e.version != application_protocol_version) protocol_error
    require_bounded_string e.message_id max_message_id_bytes
    fail_if (not (is_canonical_public_id e.from_teti_id)) protocol_error
    require_timestamp f e.created_at
    reject_private e.payload
    validate_payload f e.message_type e.payload

  -- The tests of an object with these properties.
  unfoldable pub validate_fields : Option Extra → Result Fault Envelope
  unfolding reject_private reject_unknown_keys
  validate_fields none = err protocol_error
  validate_fields (some fields) = do
    reject_private fields
    reject_unknown_keys fields envelope_fields
    e ← read_fields fields
    check_envelope e
    ok e

  unfoldable pub validate_envelope : Json → Result Fault Envelope
  validate_envelope v = do
    fail_if (ltb max_envelope_bytes (utf8_size_of (f.stringify v))) protocol_error
    validate_fields (as_object (some v))

  unfoldable pub create_envelope :
      MessageType → String → Extra → String → String → Result Fault Envelope
  create_envelope message_type from_teti_id payload message_id created_at =
      let e : Envelope = record {
        version = application_protocol_version;
        message_type = message_type;
        message_id = message_id;
        from_teti_id = from_teti_id;
        created_at = created_at;
        payload = payload;
      } in
      validate_envelope (encode e) >>= λ _. ok e

  unfoldable pub serialize_envelope : Envelope → Result Fault String
  serialize_envelope e = validate_envelope (encode e) >>= λ _. ok (f.stringify (encode e))

  abbrev pub validated : Option Json → Result Fault Envelope
  validated none = err protocol_error
  validated (some v) = validate_envelope v

  unfoldable pub parse_envelope : String → Result Fault Envelope
  parse_envelope raw = do
    fail_if (ltb max_envelope_bytes (utf8_size_of raw)) protocol_error
    validated (f.parse raw)

  validate_fields-fields_of :
      (e : Envelope) → validate_fields (some (fields_of e)) ≡ (check_envelope e >> ok e)
  unfolding validate_fields reject_private reject_unknown_keys
  validate_fields-fields_of e = rw (read_fields-fields_of e) refl

  validate-encode :
      (e e' : Envelope)
      → validate_envelope (encode e) ≡ ok e'
      → (ltb max_envelope_bytes (utf8_size_of (f.stringify (encode e))) ≡ false) × (e ≡ e')
  unfolding validate_envelope
  validate-encode e e' valid =
      let (small, others) =
        fail_if->>-eq-ok (ltb max_envelope_bytes (utf8_size_of (f.stringify (encode e))))
          protocol_error _ valid in
      let fields : validate_fields (some (fields_of e)) ≡ ok e' =
        subst (λ ps. validate_fields (some ps) ≡ ok e') (properties_of-members_of (fields_of e))
          others in
      let checked = sym (validate_fields-fields_of e) ∙ fields in
      (small, ok_injective (>>-eq-ok (check_envelope e) (ok e) checked).1)

  -- An envelope that is serialised is read back as it was, where `JSON.parse` reads what `JSON.stringify`
  -- wrote of it.
  pub parse-serialize_envelope :
      (e : Envelope) (text : String)
      → f.parse (f.stringify (encode e)) ≡ some (encode e)
      → serialize_envelope e ≡ ok text
      → parse_envelope text ≡ ok e
  unfolding serialize_envelope parse_envelope
  parse-serialize_envelope e text read written =
      let (e', valid, same) =
        >>=-eq-ok (validate_envelope (encode e)) (λ _. ok (f.stringify (encode e))) written in
      let (small, is_it) = validate-encode e e' valid in
      subst (λ t. parse_envelope t ≡ ok e) (ok_injective same)
        (rw small (rw read (valid ∙ ap ok (sym is_it))))
