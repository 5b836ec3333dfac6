-- ===== src/Application/Types.antt =====
-- core/protocol: application envelopes (types.ts), and the tests that validator.ts makes of their fields.
use teti_bot.Json.{Json, Extra, has_field}
use teti_bot.Base.{
  ℕ, String, Bool, not, ◌||◌, Option, List, [], ◌∷◌, number_equality, text_equality, Result, ◌>>◌,
  fail_if, utf8_length, any, codes, is_blank, ltb,
}

pub data MessageType : Type 0 where
  profile_sync capability_offer presence ai_status_sync task_request task_receipt task_attachment
        task_attachment_receipt task_status task_cancel task_input task_application_receipt
        task_artifact task_artifact_file task_artifact_receipt :
      MessageType

abbrev pub application_protocol_version : ℕ
application_protocol_version = 2

abbrev pub max_envelope_bytes : ℕ
max_envelope_bytes = 131072

abbrev pub max_message_id_bytes : ℕ
max_message_id_bytes = 128

abbrev pub max_timestamp_bytes : ℕ
max_timestamp_bytes = 64

pub record Envelope : Type 0 where
  pub version : ℕ
  pub message_type : MessageType
  pub message_id : String
  pub from_teti_id : String
  pub created_at : String
  pub payload : Extra

pub data Fault : Type 0 where
  protocol_error no_account not_found not_confirmed unauthorized not_sent not_received : Fault

-- `JSON.stringify`; `JSON.parse`, which gives `none` where it throws; `Date.parse` with a finite result; and
-- the tests of a payload by core/ai-status/protocol.ts, core/task/validation.ts and
-- core/task/transport-validation.ts.
pub record Format : Type 0 where
  pub stringify : Json → String
  pub parse : String → Option Json
  pub is_date : String → Bool
  pub payload_ok : MessageType → Extra → Bool

abbrev pub utf8_size_of : String → ℕ
utf8_size_of s = utf8_length (codes s)

unfoldable pub require_bounded_string : String → ℕ → Result Fault (Unit {0})
require_bounded_string s bytes = fail_if (is_blank s || ltb bytes (utf8_size_of s)) protocol_error

abbrev forbidden_fields : List String
forbidden_fields =
    "privateKey" ∷ "secretKey" ∷ "password" ∷ "credentials" ∷ "chatmailPassword" ∷ "databasePath"
    ∷ "dbPath" ∷ "chatHistory" ∷ "messages" ∷ []

unfoldable pub reject_private : Extra → Result Fault (Unit {0})
reject_private value =
    fail_if (any (λ field. has_field field value) forbidden_fields) protocol_error

module _ (f : Format) where
  unfoldable pub require_timestamp : String → Result Fault (Unit {0})
  unfolding require_bounded_string
  require_timestamp s = do
    require_bounded_string s max_timestamp_bytes
    fail_if (not (f.is_date s)) protocol_error
