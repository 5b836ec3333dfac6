-- ===== src/Workspace.antt =====
-- core/workspace/types.ts: workspaces, their manifests and the access to them. The tests of the validation
-- that a value has its declared type, and no other keys, are the types here.
pub mod Validation
pub mod Paths
pub mod Access
pub mod Totals
mod Tests
use teti_bot.Base.{
  ℕ, zero, suc, ◌+◌, ◌-◌, ◌≤◌, ◌<◌, String, ◌≡◌, refl, sym, ap, ◌∙◌, ◌≢◌, ◌↔◌, ◌⊎◌, inl, inr, Bool,
  true, false, not, ◌&&◌, ◌||◌, Option, none, some, List, [], ◌∷◌, ◌++◌, map, arith, ◌==◌, ◌!=◌,
  number_equality, text_equality, if◌then◌else◌, Result, ok, err, ◌>>=◌, ◌>>◌, All, Bool-cases,
  eq_iff,
}
use teti_bot.Base.{
  fail_if, leb, ltb, length, all, any, codes, is_alnum, is_blank, max_safe_integer, utf16_length,
  utf8_length, filter, same_codes, is_some, or_else, Comparable,
}
use teti_bot.Identity.{is_canonical_public_id}
use teti_bot.LocalPath.{
  split_slashes, begins, is_control, is_dot, is_dot_dot, is_safe_absolute_local_path,
  LocalPathPlatform, is_empty,
}

pub data WorkspaceError : Type 0 where
  invalid_access unordered_access invalid_quota quota_limit invalid_path invalid_entries :
      WorkspaceError
  duplicate_path invalid_size invalid_digest invalid_totals quota_exceeded invalid_timestamp :
      WorkspaceError
  invalid_participants unordered_participants invalid_retention unsupported_version invalid_id
        invalid_number :
      WorkspaceError

pub data WorkspaceMode : Type 0 where
  ephemeral_task durable_collaboration : WorkspaceMode

pub data WorkspaceAccess : Type 0 where
  read write create_artifact : WorkspaceAccess

pub record WorkspaceQuota : Type 0 where
  pub max_bytes : ℕ
  pub max_files : ℕ

pub data WorkspaceRetentionPolicy : Type 0 where
  ttl : (expires_at : String) → WorkspaceRetentionPolicy
  retain : WorkspaceRetentionPolicy

pub record WorkspaceManifestEntry : Type 0 where
  pub relative_path : String
  pub byte_length : ℕ
  pub sha256 : String
  pub updated_at : String

pub record WorkspaceManifest : Type 0 where
  pub entries : List WorkspaceManifestEntry
  pub total_bytes : ℕ
  pub total_files : ℕ

pub record CollaborationWorkspace : Type 0 where
  pub schema_version : ℕ
  pub workspace_id : String
  pub owner_teti_id : String
  pub participant_teti_ids : List String
  pub revision : ℕ
  pub mode : WorkspaceMode
  pub quota : WorkspaceQuota
  pub retention_policy : WorkspaceRetentionPolicy
  pub manifest : WorkspaceManifest
  pub created_at : String
  pub updated_at : String

pub data TaskWorkspaceRequest : Type 0 where
  temporary : (access : List WorkspaceAccess) → TaskWorkspaceRequest
  reference :
      (workspace_id : String) (workspace_revision : ℕ) (access : List WorkspaceAccess)
      → TaskWorkspaceRequest

pub record TaskWorkspaceBinding : Type 0 where
  pub workspace_id : String
  pub workspace_revision : ℕ
  pub mode : WorkspaceMode
  pub access : List WorkspaceAccess

pub record WorkspaceSnapshot : Type 0 where
  pub schema_version : ℕ
  pub snapshot_id : String
  pub workspace_id : String
  pub workspace_revision : ℕ
  pub access : List WorkspaceAccess
  pub snapshot_path : String
  pub created_at : String

-- `WORKSPACE_LIMITS`.
abbrev pub maximum_participants : ℕ
maximum_participants = 16

abbrev pub maximum_manifest_entries : ℕ
maximum_manifest_entries = 16384

abbrev pub maximum_bytes : ℕ
maximum_bytes = 2147483648

abbrev pub maximum_files : ℕ
maximum_files = 16384

abbrev pub maximum_relative_path_bytes : ℕ
maximum_relative_path_bytes = 1024

-- The place in `ACCESS_ORDER`.
abbrev pub access_rank : WorkspaceAccess → ℕ
access_rank read = 0
access_rank write = 1
access_rank create_artifact = 2

abbrev pub same_access : WorkspaceAccess → WorkspaceAccess → Bool
same_access a b = access_rank a == access_rank b

pub same_access_iff : (a b : WorkspaceAccess) → (same_access a b ≡ true) ↔ (a ≡ b)
same_access_iff a b = ground arith

instance abbrev pub access_equality : Comparable WorkspaceAccess
access_equality = record { test = same_access; test_iff = same_access_iff }

abbrev pub access_order : List WorkspaceAccess
access_order = read ∷ write ∷ create_artifact ∷ []
