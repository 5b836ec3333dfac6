-- ===== src/Connection/Storage.antt =====
-- core/connection/storage.ts: validation of records, the store kept in memory and the store kept in
-- a file. A throwing operation leaves its store as it was. A clone by JSON is the value itself.
pub mod Ids
pub mod Laws
pub mod File
pub mod Runs
mod Tests
use teti_bot.Base.{
  ℕ, String, ◌++◌, Bool, true, false, ◌&&◌, ◌||◌, not, Option, none, some, is_some, List, [], ◌∷◌,
  ◌==◌, ◌!=◌, number_equality, text_equality, is_blank, Result, ok, ◌>>◌, fail_if, leb, length, all,
  drop, take, codes, decimal, same_codes, is_alnum, max_safe_integer, err, find_entry, set, ◌>>=◌,
}
use teti_bot.Connection.Types.{
  ConnectionRecord, Patch, apply_patch, NetworkRelationship, RelationshipState,
}
use teti_bot.Connection.Protocol.{
  Fault, invalid, unsupported_version, connection_version, validate_request, reject_private_fields,
  not_found,
}

-- `[A-Za-z0-9_-]`.
abbrev is_base64url : ℕ → Bool
is_base64url c = is_alnum c || c == b'_' || c == b'-'

-- `/^rel_[A-Za-z0-9_-]{21}[AQgw]$/`.
unfoldable pub is_relationship_id : List ℕ → Bool
is_relationship_id (r ∷ e ∷ l ∷ u ∷ code) =
    r == b'r'
    && e == b'e'
    && l == b'l'
    && u == b'_'
    && length code == 22
    && all is_base64url (take 21 code)
    && all is_check_char (drop 21 code)
  where
    is_check_char : ℕ → Bool
    is_check_char c = c == b'A' || c == b'Q' || c == b'g' || c == b'w'
is_relationship_id _ = false

-- The text `"relationship-r${revision}"`, with its quotes.
unfoldable pub etag_codes : ℕ → List ℕ
etag_codes revision = b'"' ∷ (codes "relationship-r" ++ (decimal revision ++ b'"' ∷ []))

abbrev is_blocked : RelationshipState → Bool
is_blocked RelationshipState.blocked = true
is_blocked _ = false

abbrev same_test : Bool → Bool → Bool
same_test true b = b
same_test false b = not b

-- `/^[A-Za-z0-9_-]{43}$/`, where a fingerprint is given.
fingerprint_ok : Option String → Bool
fingerprint_ok none = true
fingerprint_ok (some f) = length (codes f) == 43 && all is_base64url (codes f)

-- `is_date s` is `Number.isFinite(Date.parse(s))`.
relationship_ok : (is_date : String → Bool) → String → NetworkRelationship → Bool
unfolding is_relationship_id etag_codes fingerprint_ok
relationship_ok is_date request_id n =
    n.schema_version == 1
    && is_relationship_id (codes n.id)
    && n.id == request_id
    && leb n.revision max_safe_integer
    && leb 1 n.revision
    && same_codes (codes n.etag) (etag_codes n.revision)
    && same_test (is_blocked n.state) (is_some n.blocked_by)
    && is_date n.state_changed_at
    && fingerprint_ok n.document_fingerprint

check_public_key : Option String → Result Fault (Unit {0})
check_public_key none = ok tt
check_public_key (some key) = fail_if (is_blank key) (invalid "remotePublicKey")

check_relationship : (String → Bool) → String → Option NetworkRelationship → Result Fault (Unit {0})
unfolding relationship_ok
check_relationship is_date request_id none = ok tt
check_relationship is_date request_id (some n) =
    fail_if (not (relationship_ok is_date request_id n)) (invalid "networkRelationship")

unfoldable pub validate_record :
    (is_date : String → Bool) → ConnectionRecord → Result Fault (Unit {0})
unfolding check_public_key check_relationship
validate_record is_date c = do
  reject_private_fields c.extra "Teti connection record"
  validate_request c.request
  fail_if (c.version != connection_version) (unsupported_version "record")
  fail_if (c.request_id == "" || c.remote_teti_id == "" || c.remote_address == "")
      (invalid "identity fields")
  check_public_key c.remote_public_key
  check_relationship is_date c.request_id c.network_relationship

-- The loop over the records of `validateConnectionStore` and of `saveAll`.
unfoldable pub validate_all :
    (is_date : String → Bool) → List ConnectionRecord → Result Fault (Unit {0})
validate_all is_date [] = ok tt
validate_all is_date (c ∷ cs) = validate_record is_date c >> validate_all is_date cs

abbrev pub has_id : String → ConnectionRecord → Bool
has_id request_id c = c.request_id == request_id

abbrev pub Connections : Type 0
Connections = List ConnectionRecord

-- `connections[existingIndex] = connection`, or `push` where the index is -1.
abbrev pub place : Option (ℕ × ConnectionRecord) → ConnectionRecord → Connections → Connections
place none c cs = cs ++ c ∷ []
place (some (i, _)) c cs = set cs i c

unfoldable pub placed : ConnectionRecord → Connections → Connections
placed c cs = place (find_entry (has_id c.request_id) cs) c cs

-- The end of `update`, once the record is found at an index.
abbrev pub store_update :
    (is_date : String → Bool)
    → String
    → Patch
    → Connections
    → Option (ℕ × ConnectionRecord)
    → Result Fault (ConnectionRecord × Connections)
store_update is_date request_id patch cs none = err (not_found request_id)
store_update is_date request_id patch cs (some (i, c)) =
    let updated = apply_patch c patch request_id in
    validate_record is_date updated >> ok (updated, set cs i updated)

-- `MemoryTetiConnectionStorage`, whose state is its list of records.
unfoldable pub save_all : (is_date : String → Bool) → Connections → Result Fault Connections
save_all is_date cs = validate_all is_date cs >> ok cs

unfoldable pub upsert :
    (is_date : String → Bool) → ConnectionRecord → Connections → Result Fault Connections
upsert is_date c cs = validate_record is_date c >> ok (placed c cs)

unfoldable pub update :
    (is_date : String → Bool)
    → String
    → Patch
    → Connections
    → Result Fault (ConnectionRecord × Connections)
update is_date request_id patch cs =
    store_update is_date request_id patch cs (find_entry (has_id request_id) cs)

unfoldable pub remove_all : Connections → Connections
remove_all cs = []

-- `FileTetiConnectionStorage`: the document that the file holds, `none` where there is no file.
pub record ConnectionStore : Type 0 where
  pub version : ℕ
  pub connections : Connections

unfoldable pub validate_store :
    (is_date : String → Bool) → ConnectionStore → Result Fault (Unit {0})
validate_store is_date store = do
  fail_if (store.version != connection_version) (unsupported_version "store")
  validate_all is_date store.connections

unfoldable pub load_all_file :
    (is_date : String → Bool) → Option ConnectionStore → Result Fault Connections
load_all_file is_date none = ok []
load_all_file is_date (some store) = validate_store is_date store >> ok store.connections

unfoldable pub save_all_file :
    (is_date : String → Bool) → Connections → Result Fault (Option ConnectionStore)
save_all_file is_date cs =
    let store : ConnectionStore = record { version = connection_version; connections = cs } in
    validate_store is_date store >> ok (some store)

unfoldable pub upsert_file :
    (is_date : String → Bool)
    → ConnectionRecord
    → Option ConnectionStore
    → Result Fault (Option ConnectionStore)
upsert_file is_date c file = do
  validate_record is_date c
  cs ← load_all_file is_date file
  save_all_file is_date (placed c cs)

unfoldable pub update_file :
    (is_date : String → Bool)
    → String
    → Patch
    → Option ConnectionStore
    → Result Fault (ConnectionRecord × Option ConnectionStore)
update_file is_date request_id patch file = do
  cs ← load_all_file is_date file
  (updated, cs') ← store_update is_date request_id patch cs (find_entry (has_id request_id) cs)
  file' ← save_all_file is_date cs'
  ok (updated, file')

unfoldable pub remove_all_file : Option ConnectionStore → Option ConnectionStore
remove_all_file file = none
