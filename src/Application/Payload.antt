-- ===== src/Application/Payload.antt =====
-- core/protocol/validator.ts: validatePayload, with the versions that a presence lists
-- (core/task/transport-validation.ts, core/ai-status/negotiation.ts). A property that is `undefined` is one
-- that the payload does not have.
use teti_bot.Json.{Json, Extra, int, str, arr, obj, items_of, properties_of, property}
use teti_bot.Application.Types.{
  MessageType, Format, Fault, require_bounded_string, require_timestamp, utf8_size_of,
  protocol_error,
}
use teti_bot.Base.{
  ℕ, String, Bool, true, false, not, ◌&&◌, ◌||◌, Option, none, some, List, [], ◌∷◌, ◌==◌, ◌!=◌,
  number_equality, text_equality, Result, ok, err, ◌>>=◌, ◌>>◌, fail_if, is_blank, length, ltb, all,
  any, codes, leb,
}

abbrev Checked : Type 0
Checked = Result Fault (Unit {0})

-- `value[field] !== n`, for a whole number n, and whether an array holds it alone.
abbrev pub is_number : ℕ → Option Json → Bool
is_number n (some (int m)) = m == n
is_number n _ = false

unfoldable pub reject_unknown_keys : Extra → List String → Checked
reject_unknown_keys value allowed =
    fail_if (any (λ p. not (any (λ k. k == p.0) allowed)) value) protocol_error

abbrev require_text : Option Json → ℕ → Checked
require_text (some (str s)) bytes = require_bounded_string s bytes
require_text _ bytes = err protocol_error

abbrev is_item : ℕ → Json → Bool
is_item bytes (str s) = not (is_blank s) && not (ltb bytes (utf8_size_of s))
is_item bytes _ = false

unfoldable pub require_string_array : Option Json → (items bytes : ℕ) → Checked
require_string_array (some (arr vs)) items bytes = do
  fail_if (length (items_of vs) == 0 || ltb items (length (items_of vs))) protocol_error
  fail_if (not (all (is_item bytes) (items_of vs))) protocol_error
require_string_array _ items bytes = err protocol_error

-- `displayName` of a profile.
abbrev require_display_name : Option Json → Checked
require_display_name none = ok tt
require_display_name (some (str s)) = fail_if (ltb 256 (utf8_size_of s)) protocol_error
require_display_name (some _) = err protocol_error

unfoldable pub are_versions : (seen : List ℕ) → List Json → Bool
are_versions seen [] = true
are_versions seen (int n ∷ vs) =
    let rest = are_versions (n ∷ seen) vs in
    not (ltb n 1 || ltb 255 n || any (λ m. m == n) seen) && rest
are_versions seen (_ ∷ vs) = false

-- `MAX_TASK_PROTOCOL_VERSIONS` and `MAX_PASSPORT_SCHEMA_VERSIONS`.
abbrev max_versions : ℕ
max_versions = 8

unfoldable pub validate_versions : Option Json → Result Fault (List Json)
unfolding are_versions
validate_versions (some (arr vs)) = do
  fail_if (length (items_of vs) == 0 || ltb max_versions (length (items_of vs))) protocol_error
  fail_if (not (are_versions [] (items_of vs))) protocol_error
  ok (items_of vs)
validate_versions _ = err protocol_error

abbrev require_only : ℕ → List Json → Checked
require_only n [] = err protocol_error
require_only n (v ∷ vs) =
    fail_if (length (v ∷ vs) != 1 || not (is_number n (some v))) protocol_error

abbrev is_hash : Option Json → Bool
is_hash (some (str s)) =
    length (codes s) == 64
    && all (λ c. (leb b'a' c && leb c b'f') || (leb b'0' c && leb c b'9')) (codes s)
is_hash _ = false

module _ (f : Format) where
  abbrev require_time : Option Json → Checked
  require_time (some (str s)) = require_timestamp f s
  require_time _ = err protocol_error

  unfoldable pub validate_lease : Option Json → Checked
  unfolding reject_unknown_keys
  validate_lease none = ok tt
  validate_lease (some (obj m)) =
      let lease = properties_of m in
      do
        reject_unknown_keys lease
            ("schemaVersion" ∷ "contentHash" ∷ "checkedAt" ∷ "validForSeconds" ∷ [])
        fail_if
            (not (is_number 1 (property "schemaVersion" lease))
              || not (is_hash (property "contentHash" lease))
              || not (is_number 300 (property "validForSeconds" lease)))
            protocol_error
        require_time (property "checkedAt" lease)
  validate_lease (some _) = err protocol_error

  abbrev validate_refresh : Option Json → Checked
  validate_refresh none = ok tt
  validate_refresh (some v) = require_time (some v)

  unfoldable pub validate_profile : Extra → Checked
  unfolding reject_unknown_keys
  validate_profile payload = do
    reject_unknown_keys payload ("displayName" ∷ "platform" ∷ "aiEnvironment" ∷ [])
    require_display_name (property "displayName" payload)
    require_text (property "platform" payload) 64
    require_string_array (property "aiEnvironment" payload) 64 128

  unfoldable pub validate_presence : Extra → Checked
  unfolding reject_unknown_keys validate_lease
  validate_presence payload = do
    reject_unknown_keys payload (
        "status" ∷ "timestamp" ∷ "collaborationProtocolEpoch" ∷ "taskProtocolVersions"
        ∷ "passportSchemaVersions" ∷ "passportLease" ∷ "passportRefreshRequestedAt" ∷ [])
    require_text (property "status" payload) 64
    require_time (property "timestamp" payload)
    fail_if (not (is_number 2 (property "collaborationProtocolEpoch" payload))) protocol_error
    tasks ← validate_versions (property "taskProtocolVersions" payload)
    require_only 7 tasks
    passports ← validate_versions (property "passportSchemaVersions" payload)
    require_only 4 passports
    validate_lease (property "passportLease" payload)
    validate_refresh (property "passportRefreshRequestedAt" payload)

  -- A payload that another file tests, behind the test of its version.
  abbrev validate_versioned : MessageType → ℕ → Extra → Checked
  validate_versioned message_type n payload = do
    fail_if (not (is_number n (property "schemaVersion" payload))) protocol_error
    fail_if (not (f.payload_ok message_type payload)) protocol_error

  unfoldable pub validate_payload : MessageType → Extra → Checked
  unfolding reject_unknown_keys
  validate_payload MessageType.profile_sync payload = validate_profile payload
  validate_payload MessageType.capability_offer payload = do
    reject_unknown_keys payload ("capabilities" ∷ [])
    require_string_array (property "capabilities" payload) 64 128
  validate_payload MessageType.presence payload = validate_presence payload
  validate_payload MessageType.ai_status_sync payload =
      validate_versioned MessageType.ai_status_sync 4 payload
  validate_payload MessageType.task_request payload =
      validate_versioned MessageType.task_request 7 payload
  validate_payload message_type payload =
      fail_if (not (f.payload_ok message_type payload)) protocol_error
