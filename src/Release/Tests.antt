-- ===== src/Release/Tests.antt =====
-- Concrete versions and a policy.
use teti_bot.Base.{ℕ, String, ◌≡◌, refl, Option, some, number_equality, text_equality, ok, err}
use teti_bot.Base.{same_codes, split_by, is_alnum}
use teti_bot.Release.Order.{compare_versions_trans, release_state_later}
use teti_bot.Release.{
  ReleasePolicy, compare_versions, is_numeric, parse_version, release_state, after, before,
  invalid_version, is_canonical_number, supported, update_required, is_identifier, split_dash,
  is_version, digits_value, halvings, power_of_two, to_number, compare_core, text_before,
  part_before, compare_parts, compare_prerelease, compare_parsed, validate_release_policy,
}

abbrev parse : String → Option ℕ
parse t = some 1000

abbrev policy : ReleasePolicy
policy = record {
  schema_version = 1;
  policy_version = 2;
  minimum_supported_version = "0.3.1-beta.2";
  effective_at = "t";
}

computes : Unit {0}
unfolding is_numeric is_canonical_number is_identifier split_dash is_version digits_value halvings
    power_of_two to_number parse_version compare_core text_before part_before compare_parts
    compare_prerelease compare_parsed compare_versions validate_release_policy release_state
    same_codes split_by is_alnum
computes = tt

beta_before : compare_versions "0.3.1-beta.2" "0.3.1-beta.10" ≡ ok before
unfolding computes
beta_before = refl

release_after_beta : compare_versions "0.3.1-beta.10" "0.3.1" ≡ ok before
unfolding computes
release_after_beta = refl

refused_leading_zero : parse_version "0.03.1" ≡ err invalid_version
unfolding computes
refused_leading_zero = refl

-- Two identifiers that round to the same number: each version is after the other.
after_each_other :
    (compare_versions "1.0.0-9007199254740993" "1.0.0-9007199254740992" ≡ ok after)
    × (compare_versions "1.0.0-9007199254740992" "1.0.0-9007199254740993" ≡ ok after)
unfolding computes
after_each_other = (refl, refl)

beta_supported : release_state parse "0.3.1-beta.2" policy 2000 ≡ ok supported
unfolding computes
beta_supported = refl

old_refused : release_state parse "0.3.0" policy 2000 ≡ ok update_required
unfolding computes
old_refused = refl

compare_versions_trans_example : compare_versions "0.3.1-beta.2" "0.3.1" ≡ ok before
compare_versions_trans_example =
    compare_versions_trans "0.3.1-beta.2" "0.3.1-beta.10" "0.3.1" beta_before release_after_beta

release_state_later_example : release_state parse "0.3.1-beta.10" policy 2000 ≡ ok supported
release_state_later_example =
    release_state_later parse policy 2000 "0.3.1-beta.2" "0.3.1-beta.10" beta_before beta_supported
