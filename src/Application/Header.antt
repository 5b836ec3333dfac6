-- ===== src/Application/Header.antt =====
-- core/protocol/envelope.ts: inspectApplicationEnvelopeHeader, which reads the header of a message whose version
-- may be another one. `JSON.parse` gives no negative zero here.
use teti_bot.Application.{
  parse_envelope, serialize_envelope, validate_envelope, validate_fields, check_envelope,
  parse-serialize_envelope, validated, envelope_fields,
}
use teti_bot.Json.{Json, Extra, int, negative, property}
use teti_bot.Application.Types.{
  Envelope, Format, utf8_size_of, max_envelope_bytes, application_protocol_version,
  max_message_id_bytes, require_bounded_string, reject_private, protocol_error,
}
use teti_bot.Application.Encoding.{
  encode, as_integer, as_text, as_object, read_fields, required, type_of,
}
use teti_bot.Application.{
  >>=-eq-ok, ltb, ok_injective, >>-eq-ok, fail_if->>-eq-ok, subst, reject_unknown_keys,
}
use teti_bot.Identity.{is_canonical_public_id}
use teti_bot.Base.{
  ℕ, String, ◌≡◌, refl, ap, ◌∙◌, Bool, true, false, not, ◌&&◌, ◌||◌, Option, none, some, arith,
  ◌!=◌, number_equality, text_equality, if◌then◌else◌, ok, is_blank, leb, max_safe_integer,
  fail_if-eq-ok,
}

pub record Header : Type 0 where
  pub version : Json
  pub from_teti_id : String
  pub message_id : Option String

abbrev is_safe_integer : Json → Bool
is_safe_integer (int n) = leb n max_safe_integer
is_safe_integer (negative n) = leb n max_safe_integer
is_safe_integer _ = false

abbrev unless_blank : Option String → Option String
unless_blank none = none
unless_blank (some s) = if is_blank s then none else some s

abbrev header_from :
    (version : Option Json) (from_teti_id message_id : Option String) → Option Header
header_from (some version) (some from_teti_id) message_id =
    if is_safe_integer version && is_canonical_public_id from_teti_id
    then some (record {
      version = version;
      from_teti_id = from_teti_id;
      message_id = unless_blank message_id;
    })
    else none
header_from _ _ message_id = none

abbrev header_of : Option Extra → Option Header
header_of none = none
header_of (some fields) =
    header_from (property "version" fields) (as_text (property "fromTetiId" fields))
      (as_text (property "messageId" fields))

module _ (f : Format) where
  unfoldable pub inspect_envelope_header : String → Option Header
  inspect_envelope_header raw =
      if ltb max_envelope_bytes (utf8_size_of raw)
      then none
      else header_of (as_object (f.parse raw))

abbrev pub own_header : Envelope → Header
own_header e = record {
  version = int e.version;
  from_teti_id = e.from_teti_id;
  message_id = some e.message_id;
}

required-ok : {A : Type 0} (o : Option A) {a : A} → required o ≡ ok a → o ≡ some a
required-ok none h = cc
required-ok (some b) h = cc

as_integer-int : (o : Option Json) {n : ℕ} → as_integer o ≡ some n → o ≡ some (int n)
as_integer-int none h = cc
as_integer-int (some Json.null) h = cc
as_integer-int (some (Json.bool b)) h = cc
as_integer-int (some (int m)) h = cc
as_integer-int (some (negative m)) h = cc
as_integer-int (some (Json.fraction m)) h = cc
as_integer-int (some (Json.str s)) h = cc
as_integer-int (some (Json.arr vs)) h = cc
as_integer-int (some (Json.obj m)) h = cc

read_fields-header :
    (fields : Extra) (e : Envelope)
    → read_fields fields ≡ ok e
    → (property "version" fields ≡ some (int e.version))
      × (as_text (property "fromTetiId" fields) ≡ some e.from_teti_id)
      × (as_text (property "messageId" fields) ≡ some e.message_id)
unfolding read_fields
read_fields-header fields e h =
    let (version, r₁, h₁) = >>=-eq-ok (required (as_integer (property "version" fields))) _ h in
    let (kind, r₂, h₂) = >>=-eq-ok (required (type_of (as_text (property "type" fields)))) _ h₁ in
    let (message_id, r₃, h₃) = >>=-eq-ok (required (as_text (property "messageId" fields))) _ h₂ in
    let (from, r₄, h₄) = >>=-eq-ok (required (as_text (property "fromTetiId" fields))) _ h₃ in
    let (created_at, r₅, h₅) = >>=-eq-ok (required (as_text (property "createdAt" fields))) _ h₄ in
    let (payload, r₆, h₆) = >>=-eq-ok (required (as_object (property "payload" fields))) _ h₅ in
    let is_it = ok_injective h₆ in
    (
      as_integer-int _ (required-ok _ r₁) ∙ ap (λ x. some (int x.version)) is_it,
      required-ok _ r₄ ∙ ap (λ x. some x.from_teti_id) is_it,
      required-ok _ r₃ ∙ ap (λ x. some x.message_id) is_it,
    )

module _ (f : Format) where
  check_envelope-header :
      (e : Envelope)
      → check_envelope f e ≡ ok tt
      → (e.version ≡ 2)
        × (is_blank e.message_id ≡ false)
        × (is_canonical_public_id e.from_teti_id ≡ true)
  unfolding check_envelope require_bounded_string
  check_envelope-header e h =
      let (is_version, h₁) =
        fail_if->>-eq-ok (e.version != application_protocol_version) protocol_error _ h in
      let (bounded, h₂) =
        >>-eq-ok (require_bounded_string e.message_id max_message_id_bytes) _ h₁ in
      let short =
        fail_if-eq-ok
          (is_blank e.message_id || ltb max_message_id_bytes (utf8_size_of e.message_id))
          protocol_error bounded in
      let (canonical, _) =
        fail_if->>-eq-ok (not (is_canonical_public_id e.from_teti_id)) protocol_error _ h₂ in
      (ground arith, ground arith, ground arith)

  header_of-fields :
      (fields : Extra) (e : Envelope)
      → validate_fields f (some fields) ≡ ok e
      → header_of (some fields) ≡ some (own_header e)
  unfolding validate_fields
  header_of-fields fields e h =
      let (_, h₁) = >>-eq-ok (reject_private fields) _ h in
      let (_, h₂) = >>-eq-ok (reject_unknown_keys fields envelope_fields) _ h₁ in
      let (e₀, is_read, h₃) = >>=-eq-ok (read_fields fields) _ h₂ in
      let (checked, same) = >>-eq-ok (check_envelope f e₀) (ok e₀) h₃ in
      let (version, from, id) = read_fields-header fields e₀ is_read in
      let (is_two, filled, canonical) = check_envelope-header e₀ checked in
      subst (λ x. header_of (some fields) ≡ some (own_header x)) (ok_injective same)
        (rw version (rw from (rw id (rw is_two (rw filled (rw canonical refl))))))

  header_of-object :
      (fields : Option Extra) (e : Envelope)
      → validate_fields f fields ≡ ok e
      → header_of fields ≡ some (own_header e)
  unfolding validate_fields
  header_of-object none e h = cc
  header_of-object (some fields) e h = header_of-fields fields e h

  header_of-validated :
      (v : Option Json) (e : Envelope)
      → validated f v ≡ ok e
      → header_of (as_object v) ≡ some (own_header e)
  unfolding validate_envelope
  header_of-validated none e h = cc
  header_of-validated (some v) e h =
      let (_, h₁) =
        fail_if->>-eq-ok (ltb max_envelope_bytes (utf8_size_of (f.stringify v))) protocol_error _
          h in
      header_of-object (as_object (some v)) e h₁

  -- A text that is read as an envelope has the header of that envelope.
  parse-inspect :
      (raw : String) (e : Envelope)
      → parse_envelope f raw ≡ ok e
      → inspect_envelope_header f raw ≡ some (own_header e)
  unfolding parse_envelope inspect_envelope_header validate_envelope
  parse-inspect raw e h =
      let (small, h₁) =
        fail_if->>-eq-ok (ltb max_envelope_bytes (utf8_size_of raw)) protocol_error _ h in
      rw small (header_of-validated (f.parse raw) e h₁)

  -- The text of an envelope is read back as the envelope, and inspected as its version, sender and id, where
  -- `JSON.parse` reads what `JSON.stringify` wrote of it.
  pub serialize_envelope-read :
      (e : Envelope) (text : String)
      → f.parse (f.stringify (encode e)) ≡ some (encode e)
      → serialize_envelope f e ≡ ok text
      → (parse_envelope f text ≡ ok e) × (inspect_envelope_header f text ≡ some (own_header e))
  serialize_envelope-read e text read written =
      let parsed = parse-serialize_envelope f e text read written in
      (parsed, parse-inspect text e parsed)
