-- ===== src/Release.antt =====
-- core/release/policy.ts: versions, their order, and the policy that names the oldest supported one.
-- `parse` is `Date.parse`, and times are numbers of milliseconds.
pub mod Order
pub mod Parts
mod Tests
use teti_bot.Base.{
  ℕ, zero, suc, ◌+◌, ◌-◌, ◌≤◌, ◌<◌, String, ◌≡◌, refl, sym, ap, ◌∙◌, ◌≢◌, ◌↔◌, ◌⊎◌, inl, inr, Bool,
  true, false, not, ◌&&◌, ◌||◌, Option, none, some, List, [], ◌∷◌, ◌++◌, map, arith, ◌==◌, ◌!=◌,
  number_equality, text_equality, if◌then◌else◌, Result, ok, err, ◌>>=◌, ◌>>◌, All, Bool-cases,
  eq_iff,
}
use teti_bot.Base.{
  fail_if, leb, ltb, length, all, any, codes, is_alnum, max_safe_integer, same_codes, split_by,
  is_some,
}
use Prim.Native.Nat.{◌*◌, ◌/◌, ◌%◌}

pub data ReleaseError : Type 0 where
  invalid_version unsupported_schema invalid_policy_version invalid_time : ReleaseError

pub record ReleasePolicy : Type 0 where
  pub schema_version : ℕ
  pub policy_version : ℕ
  pub minimum_supported_version : String
  pub effective_at : String

pub data ReleaseState : Type 0 where
  supported update_required : ReleaseState

pub record Version : Type 0 where
  pub core : List ℕ
  pub prerelease : List (List ℕ)

abbrev pub is_digit : ℕ → Bool
is_digit c = leb b'0' c && leb c b'9'

-- `/^\d+$/`.
unfoldable pub is_numeric : List ℕ → Bool
is_numeric [] = false
is_numeric (c ∷ cs) = all is_digit (c ∷ cs)

-- `0|[1-9]\d*`.
unfoldable pub is_canonical_number : List ℕ → Bool
is_canonical_number [] = false
is_canonical_number (c ∷ []) = is_digit c
is_canonical_number (c ∷ cs) = is_digit c && not (c == b'0') && all is_digit cs

abbrev is_identifier_char : ℕ → Bool
is_identifier_char c = is_alnum c || c == b'-'

-- `0|[1-9]\d*|\d*[A-Za-z-][0-9A-Za-z-]*`.
unfoldable pub is_identifier : List ℕ → Bool
is_identifier part =
    is_canonical_number part || (all is_identifier_char part && any (λ c. not (is_digit c)) part)

abbrev pub is_dot : ℕ → Bool
is_dot c = c == b'.'

-- The text before the first dash, and what follows it.
unfoldable pub split_dash : List ℕ → List ℕ × Option (List ℕ)
split_dash [] = ([], none)
split_dash (c ∷ cs) =
    let rest = split_dash cs in if c == b'-' then ([], some cs) else (c ∷ rest.0, rest.1)

abbrev pub identifiers : Option (List ℕ) → List (List ℕ)
identifiers none = []
identifiers (some text) = split_by is_dot text

-- The pattern of a version.
unfoldable pub is_version : List ℕ → Bool
is_version value =
    let parts = split_dash value in
    length (split_by is_dot parts.0) == 3
    && all is_canonical_number (split_by is_dot parts.0)
    && all is_identifier (identifiers parts.1)

-- The number that decimal digits write.
unfoldable pub digits_value : (before : ℕ) → List ℕ → ℕ
digits_value before [] = before
digits_value before (c ∷ cs) = digits_value (before * 10 + (c - 48)) cs

-- How often a number is halved until it has 53 bits: the 971 turns reach the largest finite number.
unfoldable pub halvings : (fuel n : ℕ) → ℕ
halvings zero n = zero
halvings (suc fuel) n =
    let rest = halvings fuel (n / 2) in if ltb n 9007199254740992 then zero else suc rest

unfoldable pub power_of_two : ℕ → ℕ
power_of_two zero = 1
power_of_two (suc n) = 2 * power_of_two n

-- The nearest multiple of the unit, the even one of two.
abbrev nearest : (n unit : ℕ) → ℕ
nearest n unit =
    let below = n / unit in
    let rest = n % unit in
    if ltb (2 * rest) unit || (2 * rest == unit && below % 2 == 0)
    then below * unit
    else (below + 1) * unit

-- `Number(text)` of decimal digits, for what is below 2 to the power 1024: the nearest number of 53 bits.
unfoldable pub to_number : List ℕ → ℕ
to_number text = let n = digits_value 0 text in nearest n (power_of_two (halvings 971 n))

-- The numbers of the core.
abbrev pub core_of : List ℕ → List ℕ
core_of value = map (digits_value 0) (split_by is_dot (split_dash value).0)

abbrev pub all_safe : List ℕ → Bool
all_safe core = all (λ n. leb n max_safe_integer) core

unfoldable pub parse_version : String → Result ReleaseError Version
parse_version value = do
  fail_if (not (is_version (codes value))) invalid_version
  fail_if (not (all_safe (core_of (codes value)))) invalid_version
  ok (record {
    core = core_of (codes value);
    prerelease = identifiers (split_dash (codes value)).1;
  })

-- -1, 0 and 1.
pub data Comparison : Type 0 where
  before same after : Comparison

-- The loop over the core's numbers.
unfoldable pub compare_core : List ℕ → List ℕ → Comparison
compare_core (a ∷ as') (b ∷ bs) =
    let rest = compare_core as' bs in if a == b then rest else if ltb a b then before else after
compare_core _ _ = same

-- `left < right` of two texts.
unfoldable pub text_before : List ℕ → List ℕ → Bool
text_before [] [] = false
text_before [] (b ∷ bs) = true
text_before (a ∷ as') [] = false
text_before (a ∷ as') (b ∷ bs) = let rest = text_before as' bs in if a == b then rest else ltb a b

-- Two identifiers that differ.
unfoldable pub part_before : List ℕ → List ℕ → Bool
part_before left right =
    if is_numeric left && is_numeric right
    then ltb (to_number left) (to_number right)
    else if is_numeric left || is_numeric right
    then is_numeric left
    else text_before left right

-- The loop over the identifiers.
unfoldable pub compare_parts : List (List ℕ) → List (List ℕ) → Comparison
compare_parts [] [] = same
compare_parts [] (right ∷ rights) = before
compare_parts (left ∷ lefts) [] = after
compare_parts (left ∷ lefts) (right ∷ rights) =
    let rest = compare_parts lefts rights in
    if same_codes left right then rest else if part_before left right then before else after

-- A version without identifiers comes after those with them.
unfoldable pub compare_prerelease : List (List ℕ) → List (List ℕ) → Comparison
compare_prerelease [] [] = same
compare_prerelease [] (right ∷ rights) = after
compare_prerelease (left ∷ lefts) [] = before
compare_prerelease (left ∷ lefts) (right ∷ rights) = compare_parts (left ∷ lefts) (right ∷ rights)

abbrev pub then_compare : Comparison → Comparison → Comparison
then_compare same rest = rest
then_compare first rest = first

unfoldable pub compare_parsed : Version → Version → Comparison
compare_parsed a b =
    then_compare (compare_core a.core b.core) (compare_prerelease a.prerelease b.prerelease)

unfoldable pub compare_versions : (left right : String) → Result ReleaseError Comparison
compare_versions left right = do
  a ← parse_version left
  b ← parse_version right
  ok (compare_parsed a b)

abbrev pub state_of : Comparison → ReleaseState
state_of before = update_required
state_of same = supported
state_of after = supported

require_time : {A : Type 0} → Option A → Result ReleaseError A
require_time none = err invalid_time
require_time (some time) = ok time

-- The policy with its time as `toISOString` writes it, which is `iso`.
unfoldable pub validate_release_policy :
    (parse : String → Option ℕ) (iso : ℕ → String)
    → ReleasePolicy
    → Result ReleaseError ReleasePolicy
unfolding require_time
validate_release_policy parse iso policy = do
  fail_if (policy.schema_version != 1) unsupported_schema
  fail_if (not (leb 1 policy.policy_version && leb policy.policy_version max_safe_integer))
      invalid_policy_version
  _ ← parse_version policy.minimum_supported_version
  time ← require_time (parse policy.effective_at)
  ok (record policy { effective_at = iso time })

module _ (parse : String → Option ℕ) where
  -- `Date.parse(policy.effectiveAt) > now.getTime()`, false for what is no time.
  abbrev pub is_later : Option ℕ → (now : ℕ) → Bool
  is_later none now = false
  is_later (some time) now = ltb now time

  unfoldable pub release_state :
      (current : String) → ReleasePolicy → (now : ℕ) → Result ReleaseError ReleaseState
  release_state current policy now = do
    version ← parse_version current
    let compared =
        compare_versions current policy.minimum_supported_version >>= λ c. ok (state_of c)
    if is_later (parse policy.effective_at) now then ok supported else compared
