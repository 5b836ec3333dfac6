-- ===== src/Workspace/Totals.antt =====
-- What the manifest of an accepted workspace says of its files.
use teti_bot.Workspace.Validation.{validate_manifest, validate_entries, validate_entry}
use teti_bot.Workspace.Validation.{exceeds_quota, validate_relative_path, all_distinct, includes}
use teti_bot.Base.{
  ℕ, ◌+◌, ◌≤◌, String, ◌≡◌, refl, sym, ◌∙◌, true, false, ◌||◌, Option, some, List, [], ◌∷◌, map,
  arith, ◌==◌, ◌!=◌, number_equality, text_equality, ok, All, ==_false, fail_if->>-eq-ok,
  fail_if-eq-ok, ≢_of_==, All-map,
}
use teti_bot.Base.{>>-eq-ok, >>=-eq-ok, ltb, length, codes}
use teti_bot.Workspace.{
  maximum_manifest_entries, WorkspaceManifest, WorkspaceManifestEntry, WorkspaceQuota,
}

-- The bytes of the files.
abbrev pub sum_bytes : List WorkspaceManifestEntry → ℕ
sum_bytes [] = 0
sum_bytes (entry ∷ entries) = entry.byte_length + sum_bytes entries

abbrev pub paths_of : List WorkspaceManifestEntry → List String
paths_of entries = map (λ entry. entry.relative_path) entries

differs : (a b : String) → (a == b) ≡ false → (b == a) ≡ false
differs a b h = ==_false b a (λ e. ≢_of_== a b h (sym e))

-- A path that no later entry repeats.
not_repeated :
    (path : String) (paths : List String) (entries : List WorkspaceManifestEntry)
    → All (λ entry. includes (path ∷ paths) entry.relative_path ≡ false) entries
    → includes (paths_of entries) path ≡ false
not_repeated path paths [] h = refl
not_repeated path paths (entry ∷ entries) (fresh, h) =
    let rest = not_repeated path paths entries h in
    let other : (path == entry.relative_path) ≡ false = ground arith in
    let other' = differs path entry.relative_path other in rw other' rest

module _ (parse : String → Option ℕ) where
  entry_lem :
      (paths : List String) (total : ℕ) (entry : WorkspaceManifestEntry)
      → validate_entry parse paths total entry ≡ ok tt
      → includes paths entry.relative_path ≡ false
  unfolding validate_entry
  entry_lem paths total entry run =
      let after_path = >>-eq-ok (validate_relative_path (codes entry.relative_path)) _ run in
      let after_fresh = fail_if->>-eq-ok (includes paths entry.relative_path) _ _ after_path.1 in
      after_fresh.0

  entries_lem :
      (paths : List String) (total : ℕ) (entries : List WorkspaceManifestEntry) {bytes : ℕ}
      → validate_entries parse paths total entries ≡ ok bytes
      → (bytes ≡ total + sum_bytes entries)
        × All (λ entry. includes paths entry.relative_path ≡ false) entries
        × (all_distinct (paths_of entries) ≡ true)
  unfolding validate_entries
  entries_lem paths total [] {bytes} run =
      let reached : total ≡ bytes = cc in (ground arith, tt, refl)
  entries_lem paths total (entry ∷ entries) {bytes} run =
      let steps = >>-eq-ok _ _ run in
      let rest =
        entries_lem (entry.relative_path ∷ paths) (total + entry.byte_length) entries steps.1 in
      let fresh = entry_lem paths total entry steps.0 in
      let once = not_repeated entry.relative_path paths entries rest.1 in
      (ground arith, (fresh, All-map (λ e h. ground arith) entries rest.1), rw once rest.2)

exact_totals :
    (manifest : WorkspaceManifest) (bytes files : ℕ)
    → (manifest.total_files != files || manifest.total_bytes != bytes) ≡ false
    → (manifest.total_bytes ≡ bytes) × (manifest.total_files ≡ files)
exact_totals manifest bytes files h = (ground arith, ground arith)

within_quota :
    (quota : WorkspaceQuota) (bytes files : ℕ)
    → exceeds_quota (some quota) bytes files ≡ false
    → (bytes ≤ quota.max_bytes) × (files ≤ quota.max_files)
within_quota quota bytes files h = (ground arith, ground arith)

-- An accepted manifest, under a quota: its totals are the number and the bytes of its entries, both
-- are within the quota, and no two entries have the same path.
pub validate_manifest-sum_bytes :
    (parse : String → Option ℕ) (manifest : WorkspaceManifest) (quota : WorkspaceQuota)
    → validate_manifest parse manifest (some quota) ≡ ok tt
    → (manifest.total_bytes ≡ sum_bytes manifest.entries)
      × (manifest.total_files ≡ length manifest.entries)
      × (manifest.total_bytes ≤ quota.max_bytes)
      × (manifest.total_files ≤ quota.max_files)
      × (all_distinct (paths_of manifest.entries) ≡ true)
unfolding validate_manifest
validate_manifest-sum_bytes parse manifest quota run =
    let limit = fail_if->>-eq-ok (ltb maximum_manifest_entries (length manifest.entries)) _ _ run in
    let loop = >>=-eq-ok (validate_entries parse [] 0 manifest.entries) _ limit.1 in
    let entries = entries_lem parse [] 0 manifest.entries loop.1 in
    let totals = fail_if->>-eq-ok _ _ _ loop.2 in
    let within =
      fail_if-eq-ok (exceeds_quota (some quota) loop.0 (length manifest.entries)) _ totals.1 in
    let summed : loop.0 ≡ sum_bytes manifest.entries = ground arith in
    let exact = exact_totals manifest loop.0 (length manifest.entries) totals.0 in
    let bounds = within_quota quota loop.0 (length manifest.entries) within in
    (exact.0 ∙ summed, exact.1, rw exact.0 bounds.0, rw exact.1 bounds.1, entries.2)
