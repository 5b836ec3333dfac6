-- ===== src/Workspace/Tests.antt =====
-- Concrete workspaces.
use teti_bot.Workspace.{duplicate_path}
use teti_bot.Workspace.Validation.{
  validate_manifest, validate_collaboration_workspace, timestamp, validate_entry, validate_entries,
  validate_retention,
}
use teti_bot.Workspace.Validation.{
  validate_access, validate_relative_path, all_distinct, validate_quota, is_segment, is_sha256,
  check_id, check_positive, validate_participants, check_participants, sort,
}
use teti_bot.Base.{split_by}
use teti_bot.Base.{
  utf16_length, ℕ, ◌≤◌, String, ◌≡◌, refl, true, Option, none, some, [], ◌∷◌, ◌++◌, ◌==◌,
  number_equality, text_equality, if◌then◌else◌, ok, err, same_codes, utf8_size, utf8_length,
  utf16_length, is_blank, is_space, is_alnum,
}
use teti_bot.Base.{codes, length}
use teti_bot.LocalPath.{split_slashes}
use teti_bot.LocalPath.Resolution.{resolve}
use teti_bot.Identity.{is_canonical_public_id}
use teti_bot.Workspace.{
  WorkspaceManifest, WorkspaceQuota, CollaborationWorkspace, WorkspaceManifestEntry,
  durable_collaboration, invalid_id, retain,
}
use teti_bot.Workspace.Paths.{validate_relative_path-resolve}
use teti_bot.Workspace.Totals.{sum_bytes, paths_of, validate_manifest-sum_bytes}

abbrev parse : String → Option ℕ
parse t = if t == "2026-01-01T00:00:00Z" then some 1767225600000 else none

abbrev digest : String
digest = "sha256:0123456789abcdef0123456789abcdef0123456789abcdef0123456789abcdef"

abbrev file : String → ℕ → WorkspaceManifestEntry
file path bytes = record {
  relative_path = path;
  byte_length = bytes;
  sha256 = digest;
  updated_at = "2026-01-01T00:00:00Z";
}

abbrev manifest : WorkspaceManifest
manifest = record {
  entries = file "notes/plan.md" 120 ∷ file "notes/todo.md" 30 ∷ [];
  total_bytes = 150;
  total_files = 2;
}

abbrev quota : WorkspaceQuota
quota = record { max_bytes = 67108864; max_files = 512 }

abbrev twice : WorkspaceManifest
twice = record {
  entries = file "notes/plan.md" 120 ∷ file "notes/plan.md" 30 ∷ [];
  total_bytes = 150;
  total_files = 2;
}

abbrev workspace : CollaborationWorkspace
workspace = record {
  schema_version = 1;
  workspace_id = "ws:1";
  owner_teti_id = "teti:a";
  participant_teti_ids = [];
  revision = 1;
  mode = durable_collaboration;
  quota = quota;
  retention_policy = retain;
  manifest = manifest;
  created_at = "2026-01-01T00:00:00Z";
  updated_at = "2026-01-01T00:00:00Z";
}

computes : Unit {0}
unfolding validate_access validate_quota validate_relative_path is_segment is_sha256 timestamp
    validate_entry validate_entries validate_manifest validate_retention
    validate_collaboration_workspace check_id check_positive validate_participants
    check_participants sort is_canonical_public_id split_by same_codes utf8_size utf8_length
    utf16_length is_blank is_space is_alnum
computes = tt

refused_twice : validate_manifest parse twice (some quota) ≡ err duplicate_path
unfolding computes
refused_twice = refl

refused_owner : validate_collaboration_workspace parse workspace ≡ err invalid_id
unfolding computes
refused_owner = refl

plan-IsAccepted : validate_relative_path (codes "notes/plan.md") ≡ ok tt
unfolding computes
plan-IsAccepted = refl

manifest-IsAccepted : validate_manifest parse manifest (some quota) ≡ ok tt
unfolding computes
manifest-IsAccepted = refl

validate_relative_path-resolve_example :
    resolve (codes "ws" ∷ []) (split_slashes (codes "notes/plan.md"))
    ≡ (codes "ws" ∷ []) ++ split_slashes (codes "notes/plan.md")
validate_relative_path-resolve_example =
    validate_relative_path-resolve (codes "notes/plan.md") (codes "ws" ∷ []) plan-IsAccepted

validate_manifest-sum_bytes_example :
    (manifest.total_bytes ≡ sum_bytes manifest.entries)
    × (manifest.total_files ≡ length manifest.entries)
    × (manifest.total_bytes ≤ quota.max_bytes)
    × (manifest.total_files ≤ quota.max_files)
    × (all_distinct (paths_of manifest.entries) ≡ true)
validate_manifest-sum_bytes_example =
    validate_manifest-sum_bytes parse manifest quota manifest-IsAccepted
