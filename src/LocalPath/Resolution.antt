-- ===== src/LocalPath/Resolution.antt =====
-- What the canonical segments mean to a resolver: going through them climbs nowhere.
use mathlib.Core.List.{append-nil, append_assoc, drop}
use teti_bot.Base.{
  ℕ, ◌≡◌, refl, sym, ◌∙◌, inl, inr, Bool, true, false, not, ◌&&◌, ◌||◌, List, [], ◌∷◌, ◌++◌, arith,
  number_equality, text_equality, if◌then◌else◌, Bool-cases,
}
use teti_bot.Base.{all, filter}
use teti_bot.LocalPath.{
  is_dot, is_dot_dot, is_empty, has_canonical_segments, is_safe_absolute_local_path, split_slashes,
  LocalPathPlatform, split_by, windows, is_separator, macos,
}

drop_last : List (List ℕ) → List (List ℕ)
drop_last [] = []
drop_last (part ∷ []) = []
drop_last (part ∷ parts) = part ∷ drop_last parts

-- POSIX resolution, of the reached directories: an empty segment and `.` stay, `..` climbs.
unfoldable pub resolve : (base : List (List ℕ)) → List (List ℕ) → List (List ℕ)
unfolding drop_last
resolve base [] = base
resolve base (part ∷ parts) =
    let climbed = resolve (drop_last base) parts in
    let stayed = resolve base parts in
    let entered = resolve (base ++ (part ∷ [])) parts in
    if is_empty part || is_dot part then stayed else if is_dot_dot part then climbed else entered

abbrev pub stays : List ℕ → Bool
stays part = not (is_dot part) && not (is_dot_dot part)

-- Only the empty segments are lost.
pub resolve_canonical :
    (parts base : List (List ℕ))
    → all stays parts ≡ true
    → resolve base parts ≡ base ++ filter (λ part. not (is_empty part)) parts
unfolding resolve
resolve_canonical [] base h = sym (append-nil base)
resolve_canonical (part ∷ parts) base h = elim (Bool-cases (is_empty part)) [
  | inl e ↦ let rest = resolve_canonical parts base rest_stays in rw e rest
  | inr e ↦
      let rest = resolve_canonical parts (base ++ (part ∷ [])) rest_stays in
      let no_dot : is_dot part ≡ false = ground arith in
      let no_dot_dot : is_dot_dot part ≡ false = ground arith in
      rw e (rw no_dot (rw no_dot_dot (rest ∙ append_assoc base (part ∷ []) _)))
]
  where
    rest_stays : all stays parts ≡ true
    rest_stays = ground arith

pub has_canonical_segments-stays :
    (parts : List (List ℕ)) → has_canonical_segments parts ≡ true → all stays parts ≡ true
unfolding has_canonical_segments
has_canonical_segments-stays [] h = refl
has_canonical_segments-stays (part ∷ parts) h =
    let rest : has_canonical_segments parts ≡ true = ground arith in
    let stays_rest = has_canonical_segments-stays parts rest in ground arith

-- The segments after the root, as the platform splits them.
abbrev pub segments : LocalPathPlatform → List ℕ → List (List ℕ)
segments windows value = split_by is_separator (drop 3 value)
segments macos value = split_slashes (drop 1 value)

is_canonical :
    (value : List ℕ) (platform : LocalPathPlatform)
    → is_safe_absolute_local_path value platform ≡ true
    → has_canonical_segments (segments platform value) ≡ true
unfolding is_safe_absolute_local_path
is_canonical value windows h = ground arith
is_canonical value macos h = ground arith

-- A safe path, on either platform, is resolved inside its root: from any directory that the root
-- stands for, going through the segments after the root gives the directory followed by the segments
-- that are not empty, so no `.` or `..` of it leads out or is left to interpret.
pub is_safe_absolute_local_path-resolve :
    (value : List ℕ) (platform : LocalPathPlatform) (root : List (List ℕ))
    → is_safe_absolute_local_path value platform ≡ true
    → resolve root (segments platform value)
      ≡ root ++ filter (λ part. not (is_empty part)) (segments platform value)
is_safe_absolute_local_path-resolve value platform root h =
    let canonical =
      has_canonical_segments-stays (segments platform value) (is_canonical value platform h) in
    resolve_canonical (segments platform value) root canonical
