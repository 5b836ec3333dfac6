-- ===== src/Application/Encoding.antt =====
-- core/protocol: an envelope as a JSON object, as `createApplicationEnvelope` of envelope.ts writes it, and the
-- tests of validator.ts that such an object has the properties of an envelope, of their types.
use teti_bot.Json.{
  Json, Extra, int, str, obj, property, properties_of, members_of, properties_of-members_of,
}
use teti_bot.Application.Types.{MessageType, Envelope, Fault, protocol_error}
use teti_bot.Base.{
  ℕ, String, ◌≡◌, refl, Option, none, some, List, [], ◌∷◌, ◌==◌, number_equality, text_equality,
  Result, ok, err, ◌>>=◌, find,
}

abbrev type_name : MessageType → String
type_name MessageType.profile_sync = "teti.profile.sync"
type_name MessageType.capability_offer = "teti.capability.offer"
type_name MessageType.presence = "teti.presence"
type_name MessageType.ai_status_sync = "teti.ai.status.sync"
type_name MessageType.task_request = "teti.task.request"
type_name MessageType.task_receipt = "teti.task.receipt"
type_name MessageType.task_attachment = "teti.task.attachment"
type_name MessageType.task_attachment_receipt = "teti.task.attachment.receipt"
type_name MessageType.task_status = "teti.task.status"
type_name MessageType.task_cancel = "teti.task.cancel"
type_name MessageType.task_input = "teti.task.input"
type_name MessageType.task_application_receipt = "teti.task.application.receipt"
type_name MessageType.task_artifact = "teti.task.artifact"
type_name MessageType.task_artifact_file = "teti.task.artifact.file"
type_name MessageType.task_artifact_receipt = "teti.task.artifact.receipt"

abbrev message_types : List MessageType
message_types =
    MessageType.profile_sync ∷ MessageType.capability_offer ∷ MessageType.presence
    ∷ MessageType.ai_status_sync ∷ MessageType.task_request ∷ MessageType.task_receipt
    ∷ MessageType.task_attachment ∷ MessageType.task_attachment_receipt ∷ MessageType.task_status
    ∷ MessageType.task_cancel ∷ MessageType.task_input ∷ MessageType.task_application_receipt
    ∷ MessageType.task_artifact ∷ MessageType.task_artifact_file ∷ MessageType.task_artifact_receipt
    ∷ []

abbrev pub fields_of : Envelope → Extra
fields_of e =
    ("version", int e.version)
    ∷ ("type", str (type_name e.message_type))
    ∷ ("messageId", str e.message_id)
    ∷ ("fromTetiId", str e.from_teti_id)
    ∷ ("createdAt", str e.created_at)
    ∷ ("payload", obj (members_of e.payload))
    ∷ []

abbrev pub encode : Envelope → Json
encode e = obj (members_of (fields_of e))

abbrev pub required : {A : Type 0} → Option A → Result Fault A
required none = err protocol_error
required (some a) = ok a

abbrev pub as_integer : Option Json → Option ℕ
as_integer (some (int n)) = some n
as_integer _ = none

abbrev pub as_text : Option Json → Option String
as_text (some (str s)) = some s
as_text _ = none

abbrev pub as_object : Option Json → Option Extra
as_object (some (obj m)) = some (properties_of m)
as_object _ = none

abbrev pub type_of : Option String → Option MessageType
type_of none = none
type_of (some s) = find (λ t. type_name t == s) message_types

unfoldable pub read_fields : Extra → Result Fault Envelope
read_fields fields = do
  version ← required (as_integer (property "version" fields))
  message_type ← required (type_of (as_text (property "type" fields)))
  message_id ← required (as_text (property "messageId" fields))
  from_teti_id ← required (as_text (property "fromTetiId" fields))
  created_at ← required (as_text (property "createdAt" fields))
  payload ← required (as_object (property "payload" fields))
  ok (record {
    version = version;
    message_type = message_type;
    message_id = message_id;
    from_teti_id = from_teti_id;
    created_at = created_at;
    payload = payload;
  })

type_of-type_name : (t : MessageType) → type_of (some (type_name t)) ≡ some t
type_of-type_name MessageType.profile_sync = refl
type_of-type_name MessageType.capability_offer = refl
type_of-type_name MessageType.presence = refl
type_of-type_name MessageType.ai_status_sync = refl
type_of-type_name MessageType.task_request = refl
type_of-type_name MessageType.task_receipt = refl
type_of-type_name MessageType.task_attachment = refl
type_of-type_name MessageType.task_attachment_receipt = refl
type_of-type_name MessageType.task_status = refl
type_of-type_name MessageType.task_cancel = refl
type_of-type_name MessageType.task_input = refl
type_of-type_name MessageType.task_application_receipt = refl
type_of-type_name MessageType.task_artifact = refl
type_of-type_name MessageType.task_artifact_file = refl
type_of-type_name MessageType.task_artifact_receipt = refl

-- The properties of an envelope are read as that envelope.
pub read_fields-fields_of : (e : Envelope) → read_fields (fields_of e) ≡ ok e
unfolding read_fields
read_fields-fields_of e =
    rw (type_of-type_name e.message_type) (rw (properties_of-members_of e.payload) refl)
