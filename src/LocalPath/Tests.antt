-- ===== src/LocalPath/Tests.antt =====
-- Concrete local paths.
use teti_bot.Base.{split_by}
use teti_bot.Base.{
  ℕ, ◌≡◌, refl, true, false, not, List, [], ◌∷◌, ◌++◌, number_equality, text_equality, is_space,
  utf16_length, same_codes,
}
use teti_bot.Base.{codes, filter}
use teti_bot.LocalPath.{
  macos, windows, is_empty, is_safe_absolute_local_path, has_canonical_segments, is_drive_absolute,
}
use teti_bot.LocalPath.Resolution.{resolve, segments, is_safe_absolute_local_path-resolve}

abbrev home : List ℕ
home = codes "C:\\Users/maya\\notes"

computes : Unit {0}
unfolding is_safe_absolute_local_path has_canonical_segments is_drive_absolute split_by is_space
    utf16_length same_codes
computes = tt

refused_traversal : is_safe_absolute_local_path (codes "/Users/../etc") macos ≡ false
unfolding computes
refused_traversal = refl

refused_share : is_safe_absolute_local_path (codes "\\\\host\\share") windows ≡ false
unfolding computes
refused_share = refl

home-IsSafe : is_safe_absolute_local_path home windows ≡ true
unfolding computes
home-IsSafe = refl

is_safe_absolute_local_path-resolve_example :
    resolve (codes "C:" ∷ []) (segments windows home)
    ≡ (codes "C:" ∷ []) ++ filter (λ part. not (is_empty part)) (segments windows home)
is_safe_absolute_local_path-resolve_example =
    is_safe_absolute_local_path-resolve home windows (codes "C:" ∷ []) home-IsSafe
