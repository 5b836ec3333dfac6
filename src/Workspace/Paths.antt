-- ===== src/Workspace/Paths.antt =====
-- Relative paths of a workspace: what one that is accepted can name.
use teti_bot.Workspace.Validation.{validate_relative_path, is_segment}
use teti_bot.Base.{
  ℕ, ◌≡◌, refl, ap, ◌∙◌, true, false, not, List, [], ◌∷◌, ◌++◌, arith, number_equality,
  text_equality, ok, fail_if->>-eq-ok, fail_if-eq-ok,
}
use teti_bot.Base.{all, filter}
use teti_bot.LocalPath.{is_empty, split_slashes}
use teti_bot.LocalPath.Resolution.{resolve, resolve_canonical, stays}

segments_stay :
    (parts : List (List ℕ))
    → all is_segment parts ≡ true
    → (all stays parts ≡ true) × (filter (λ part. not (is_empty part)) parts ≡ parts)
unfolding is_segment
segments_stay [] h = (refl, refl)
segments_stay (part ∷ parts) h =
    let rest = segments_stay parts (ground arith) in
    let entered : is_empty part ≡ false = ground arith in
    (ground arith, rw entered (ap (◌∷◌ part) rest.1))

-- A relative path that is accepted stays below the workspace: resolved from any directory, it names
-- that directory followed by exactly the segments of the path.
pub validate_relative_path-resolve :
    (v : List ℕ) (root : List (List ℕ))
    → validate_relative_path v ≡ ok tt
    → resolve root (split_slashes v) ≡ root ++ split_slashes v
unfolding validate_relative_path
validate_relative_path-resolve v root h =
    let guards = fail_if->>-eq-ok _ _ _ h in
    let all_segments = fail_if-eq-ok _ _ guards.1 in
    let facts = segments_stay (split_slashes v) (ground arith) in
    resolve_canonical (split_slashes v) root facts.0 ∙ ap (λ parts. root ++ parts) facts.1
