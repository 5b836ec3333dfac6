-- ===== src/LocalPath.antt =====
-- core/application/local-path.ts: which local paths are safe, by their code points.
pub mod Resolution
mod Tests
use teti_bot.Base.{
  ℕ, zero, suc, ◌+◌, ◌-◌, ◌≤◌, ◌<◌, String, ◌≡◌, refl, sym, ap, ◌∙◌, ◌≢◌, ◌↔◌, ◌⊎◌, inl, inr, Bool,
  true, false, not, ◌&&◌, ◌||◌, Option, none, some, List, [], ◌∷◌, ◌++◌, map, arith, ◌==◌, ◌!=◌,
  number_equality, text_equality, if◌then◌else◌, Result, ok, err, ◌>>=◌, ◌>>◌, All, Bool-cases,
  eq_iff, split_by,
}
use teti_bot.Base.{length, all, any, leb, ltb, drop, is_space, same_codes, utf16_length}

pub data LocalPathPlatform : Type 0 where
  macos windows : LocalPathPlatform

-- `[\u0000-\u001f\u007f]`.
abbrev pub is_control : ℕ → Bool
is_control c = leb c 0x1f || c == 0x7f

abbrev is_slash : ℕ → Bool
is_slash c = c == b'/'

-- `[\\/]`.
abbrev pub is_separator : ℕ → Bool
is_separator c = c == b'/' || c == b'\\'

abbrev is_letter : ℕ → Bool
is_letter c = (leb b'a' c && leb c b'z') || (leb b'A' c && leb c b'Z')

-- `value.split("/")`.
abbrev pub split_slashes : List ℕ → List (List ℕ)
split_slashes v = split_by is_slash v

abbrev pub begins : (ℕ → Bool) → List ℕ → Bool
begins p [] = false
begins p (c ∷ cs) = p c

abbrev ends : (ℕ → Bool) → List ℕ → Bool
ends p [] = false
ends p (c ∷ []) = p c
ends p (c ∷ cs) = ends p cs

-- `value.trim() !== value`, negated.
abbrev is_trimmed : List ℕ → Bool
is_trimmed v = not (begins is_space v) && not (ends is_space v)

abbrev pub is_dot : List ℕ → Bool
is_dot v = same_codes v (b'.' ∷ [])

abbrev pub is_dot_dot : List ℕ → Bool
is_dot_dot v = same_codes v (b'.' ∷ b'.' ∷ [])

abbrev pub is_empty : List ℕ → Bool
is_empty [] = true
is_empty (c ∷ cs) = false

abbrev is_last : List (List ℕ) → Bool
is_last [] = true
is_last (part ∷ parts) = false

unfoldable pub has_canonical_segments : List (List ℕ) → Bool
has_canonical_segments [] = true
has_canonical_segments (part ∷ parts) =
    (not (is_empty part) || is_last parts)
    && not (is_dot part)
    && not (is_dot_dot part)
    && has_canonical_segments parts

-- `/^[A-Za-z]:[\\/](?![\\/])/`.
unfoldable pub is_drive_absolute : List ℕ → Bool
is_drive_absolute (drive ∷ colon ∷ separator ∷ rest) =
    is_letter drive && colon == b':' && is_separator separator && not (begins is_separator rest)
is_drive_absolute _ = false

abbrev begins_twice : ℕ → List ℕ → Bool
begins_twice c (a ∷ b ∷ cs) = a == c && b == c
begins_twice c _ = false

unfoldable pub is_safe_absolute_local_path : List ℕ → LocalPathPlatform → Bool
is_safe_absolute_local_path value platform =
    if length value == 0
      || ltb 4096 (utf16_length value)
      || any is_control value
      || not (is_trimmed value)
    then false
    else on platform
  where
    on : LocalPathPlatform → Bool
    on windows =
        if not (is_drive_absolute value)
          || begins_twice b'\\' value
          || begins_twice b'/' value
          || any (λ c. c == b':') (drop 2 value)
        then false
        else has_canonical_segments (split_by is_separator (drop 3 value))
    on macos =
        if not (begins is_slash value) || begins_twice b'/' value || any (λ c. c == b'\\') value
        then false
        else has_canonical_segments (split_slashes (drop 1 value))

last_part : List (List ℕ) → List ℕ
last_part [] = []
last_part (part ∷ []) = part
last_part (part ∷ parts) = last_part parts

unfoldable pub local_path_basename : List ℕ → LocalPathPlatform → List ℕ
unfolding last_part
local_path_basename value windows = last_part (split_by is_separator value)
local_path_basename value macos = last_part (split_slashes value)
