-- ===== src/Workspace/Validation.antt =====
-- core/workspace/validation.ts. `parse` is `Date.parse`, `none` being NaN. Texts whose pattern is read are
-- taken by their code points.
use teti_bot.Workspace.{invalid_retention}
use teti_bot.Workspace.{
  access_equality, temporary, reference, ttl, retain, ephemeral_task, durable_collaboration, read,
}
use teti_bot.Base.{
  ℕ, ◌+◌, String, Bool, true, false, not, ◌&&◌, ◌||◌, Option, none, some, List, [], ◌∷◌, ◌==◌, ◌!=◌,
  number_equality, text_equality, if◌then◌else◌, Result, ok, err, ◌>>=◌, ◌>>◌,
}
use teti_bot.Base.{
  fail_if, leb, ltb, length, all, any, codes, is_alnum, is_blank, max_safe_integer, utf16_length,
  utf8_length, filter, same_codes, Comparable,
}
use teti_bot.Identity.{is_canonical_public_id}
use teti_bot.LocalPath.{
  split_slashes, begins, is_control, is_dot, is_dot_dot, is_safe_absolute_local_path,
  LocalPathPlatform, is_empty,
}
use teti_bot.Workspace.{
  CollaborationWorkspace, TaskWorkspaceBinding, TaskWorkspaceRequest, WorkspaceAccess,
  WorkspaceError, WorkspaceManifest, WorkspaceManifestEntry, WorkspaceQuota,
  WorkspaceRetentionPolicy, WorkspaceSnapshot, WorkspaceMode, duplicate_path, invalid_access,
  invalid_id, invalid_number, invalid_timestamp, maximum_bytes, maximum_manifest_entries,
  maximum_participants, maximum_relative_path_bytes, unsupported_version, access_order,
  invalid_entries, invalid_participants, invalid_path, invalid_size, maximum_files, invalid_digest,
  invalid_totals, quota_limit, unordered_access, unordered_participants, quota_exceeded,
}

-- `Array.prototype.includes`.
abbrev pub includes : {A : Type 0} ⦃c : Comparable A⦄ → List A → A → Bool
includes xs x = any (λ y. y == x) xs

-- `new Set(value).size !== value.length`, negated.
abbrev pub all_distinct : {A : Type 0} ⦃c : Comparable A⦄ → List A → Bool
all_distinct [] = true
all_distinct (x ∷ xs) = not (includes xs x) && all_distinct xs

-- `canonical.some((item, index) => value[index] !== item)`, negated.
abbrev pub starts_with : {A : Type 0} ⦃c : Comparable A⦄ → List A → List A → Bool
starts_with [] value = true
starts_with (x ∷ xs) [] = false
starts_with (x ∷ xs) (y ∷ ys) = y == x && starts_with xs ys

-- `[A-Za-z0-9._:-]`.
abbrev pub is_id_char : ℕ → Bool
is_id_char c = is_alnum c || c == b'.' || c == b'_' || c == b':' || c == b'-'

abbrev is_id_codes : List ℕ → Bool
is_id_codes [] = false
is_id_codes (c ∷ cs) = is_alnum c && all is_id_char cs && leb (length cs) 127

-- `/^[A-Za-z0-9][A-Za-z0-9._:-]{0,127}$/`.
unfoldable pub check_id : String → Result WorkspaceError (Unit {0})
check_id value = fail_if (not (is_id_codes (codes value))) invalid_id

unfoldable pub check_positive : ℕ → Result WorkspaceError (Unit {0})
check_positive n = fail_if (not (ltb 0 n && leb n max_safe_integer)) invalid_number

abbrev pub first_is_read : List WorkspaceAccess → Bool
first_is_read [] = false
first_is_read (a ∷ as') = a == read

unfoldable pub validate_access : List WorkspaceAccess → Result WorkspaceError (Unit {0})
validate_access value = do
  fail_if (length value == 0 || ltb 3 (length value)) invalid_access
  fail_if (not (all_distinct value && first_is_read value)) invalid_access
  fail_if (not (starts_with (filter (includes value) access_order) value)) unordered_access

unfoldable pub validate_quota : WorkspaceQuota → Result WorkspaceError (Unit {0})
validate_quota quota = do
  check_positive quota.max_bytes
  check_positive quota.max_files
  fail_if (ltb maximum_bytes quota.max_bytes || ltb maximum_files quota.max_files) quota_limit

unfoldable pub is_segment : List ℕ → Bool
is_segment v =
    not (is_empty v)
    && not (is_dot v)
    && not (is_dot_dot v)
    && leb (utf16_length v) 255
    && not (any is_control v)

unfoldable pub validate_relative_path : List ℕ → Result WorkspaceError (Unit {0})
validate_relative_path v = do
  fail_if
      (length v == 0
        || begins (λ c. c == b'/') v
        || any (λ c. c == b'\\') v
        || any (λ c. c == 0) v
        || ltb maximum_relative_path_bytes (utf8_length v))
      invalid_path
  fail_if (not (all is_segment (split_slashes v))) invalid_path

-- The order of two texts by their code points, which `Array.prototype.sort` goes by on ASCII texts.
abbrev precedes : List ℕ → List ℕ → Bool
precedes [] ys = true
precedes (x ∷ xs) [] = false
precedes (x ∷ xs) (y ∷ ys) = let rest = precedes xs ys in if x == y then rest else ltb x y

abbrev insert : String → List String → List String
insert x [] = x ∷ []
insert x (y ∷ ys) =
    let rest = insert x ys in if precedes (codes x) (codes y) then x ∷ y ∷ ys else y ∷ rest

unfoldable pub sort : List String → List String
sort [] = []
sort (x ∷ xs) = insert x (sort xs)

-- The loop over the participants.
unfoldable pub check_participants :
    (owner : String) (seen : List String) → List String → Result WorkspaceError (Unit {0})
check_participants owner seen [] = ok tt
check_participants owner seen (item ∷ items) = do
  fail_if (not (is_canonical_public_id item)) invalid_id
  fail_if (item == owner || includes seen item) invalid_participants
  check_participants owner (item ∷ seen) items

unfoldable pub validate_participants :
    List String → (owner : String) → Result WorkspaceError (Unit {0})
validate_participants value owner = do
  fail_if (ltb maximum_participants (length value)) invalid_participants
  check_participants owner [] value
  fail_if (not (starts_with (sort value) value)) unordered_participants

unfoldable pub validate_task_workspace_request :
    TaskWorkspaceRequest → Result WorkspaceError (Unit {0})
validate_task_workspace_request (temporary access) = validate_access access
validate_task_workspace_request (reference workspace_id workspace_revision access) = do
  check_id workspace_id
  check_positive workspace_revision
  validate_access access

unfoldable pub validate_task_workspace_binding :
    TaskWorkspaceBinding → Result WorkspaceError (Unit {0})
validate_task_workspace_binding binding = do
  check_id binding.workspace_id
  check_positive binding.workspace_revision
  validate_access binding.access

abbrev pub is_lower_hex : ℕ → Bool
is_lower_hex c = (leb b'a' c && leb c b'f') || (leb b'0' c && leb c b'9')

-- `/^sha256:[a-f0-9]{64}$/`.
unfoldable pub is_sha256 : List ℕ → Bool
is_sha256 (s ∷ h ∷ a ∷ two ∷ five ∷ six ∷ colon ∷ hex) =
    same_codes (s ∷ h ∷ a ∷ two ∷ five ∷ six ∷ colon ∷ []) (codes "sha256:")
    && length hex == 64
    && all is_lower_hex hex
is_sha256 _ = false

abbrev pub exceeds_quota : Option WorkspaceQuota → (bytes files : ℕ) → Bool
exceeds_quota none bytes files = false
exceeds_quota (some quota) bytes files = ltb quota.max_bytes bytes || ltb quota.max_files files

module _ (parse : String → Option ℕ) where
  abbrev require : Option ℕ → Result WorkspaceError ℕ
  require none = err invalid_timestamp
  require (some milliseconds) = ok milliseconds

  unfoldable pub timestamp : String → Result WorkspaceError ℕ
  timestamp value = do fail_if (is_blank value) invalid_timestamp; require (parse value)

  unfoldable pub validate_entry :
      (paths : List String) (total_bytes : ℕ)
      → WorkspaceManifestEntry
      → Result WorkspaceError (Unit {0})
  validate_entry paths total_bytes entry = do
    validate_relative_path (codes entry.relative_path)
    fail_if (includes paths entry.relative_path) duplicate_path
    fail_if (not (leb entry.byte_length max_safe_integer)) invalid_size
    fail_if (not (is_sha256 (codes entry.sha256))) invalid_digest
    _ ← timestamp entry.updated_at
    fail_if (not (leb (total_bytes + entry.byte_length) max_safe_integer)) invalid_size

  -- The loop over the entries: the bytes in all.
  unfoldable pub validate_entries :
      (paths : List String) (total_bytes : ℕ)
      → List WorkspaceManifestEntry
      → Result WorkspaceError ℕ
  validate_entries paths total_bytes [] = ok total_bytes
  validate_entries paths total_bytes (entry ∷ entries) = do
    validate_entry paths total_bytes entry
    validate_entries (entry.relative_path ∷ paths) (total_bytes + entry.byte_length) entries

  unfoldable pub validate_manifest :
      WorkspaceManifest → Option WorkspaceQuota → Result WorkspaceError (Unit {0})
  validate_manifest manifest quota = do
    fail_if (ltb maximum_manifest_entries (length manifest.entries)) invalid_entries
    bytes ← validate_entries [] 0 manifest.entries
    fail_if (manifest.total_files != length manifest.entries || manifest.total_bytes != bytes)
        invalid_totals
    fail_if (exceeds_quota quota bytes (length manifest.entries)) quota_exceeded

  unfoldable pub validate_retention :
      WorkspaceRetentionPolicy → WorkspaceMode → Result WorkspaceError (Unit {0})
  validate_retention (ttl expires_at) ephemeral_task = do _ ← timestamp expires_at; ok tt
  validate_retention (ttl expires_at) durable_collaboration = err invalid_retention
  validate_retention retain ephemeral_task = err invalid_retention
  validate_retention retain durable_collaboration = ok tt

  unfoldable pub validate_collaboration_workspace :
      CollaborationWorkspace → Result WorkspaceError (Unit {0})
  validate_collaboration_workspace workspace = do
    fail_if (workspace.schema_version != 1) unsupported_version
    check_id workspace.workspace_id
    fail_if (not (is_canonical_public_id workspace.owner_teti_id)) invalid_id
    validate_participants workspace.participant_teti_ids workspace.owner_teti_id
    check_positive workspace.revision
    validate_quota workspace.quota
    validate_retention workspace.retention_policy workspace.mode
    validate_manifest workspace.manifest (some workspace.quota)
    created_at ← timestamp workspace.created_at
    updated_at ← timestamp workspace.updated_at
    fail_if (ltb updated_at created_at) invalid_timestamp

  unfoldable pub validate_workspace_snapshot :
      WorkspaceSnapshot → LocalPathPlatform → Result WorkspaceError (Unit {0})
  validate_workspace_snapshot snapshot platform = do
    fail_if (snapshot.schema_version != 1) unsupported_version
    check_id snapshot.snapshot_id
    check_id snapshot.workspace_id
    check_positive snapshot.workspace_revision
    validate_access snapshot.access
    fail_if (not (is_safe_absolute_local_path (codes snapshot.snapshot_path) platform)) invalid_path
    _ ← timestamp snapshot.created_at
    ok tt
