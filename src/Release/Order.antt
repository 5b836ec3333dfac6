-- ===== src/Release/Order.antt =====
-- The order of versions, and what it means for the support of a newer one.
use teti_bot.Base.{
  ℕ, ◌≡◌, refl, sym, ap, ◌∙◌, inl, inr, List, [], ◌∷◌, arith, number_equality, text_equality,
  if◌then◌else◌, Bool-cases, subst, map, String, suc, ◌⊎◌, Option, ok, >>=-eq-ok, fail_if->>-eq-ok,
  not, codes, split_by, ◌>>=◌, Result, ok_injective,
}
use teti_bot.Base.{length}
use teti_bot.Release.{
  before, Comparison, compare_core, same, after, compare_parsed, compare_versions, parse_version,
  release_state, then_compare, Version, is_version, ReleasePolicy, supported, invalid_version,
  is_dot, split_dash, digits_value, ReleaseError, is_later, all_safe, state_of, core_of,
}
use teti_bot.Release.Parts.{compare_prerelease_trans, compare_core-same, compare_core_trans}

-- A result of this module's code.
abbrev as_ok : {A : Type 0} → A → Result ReleaseError A
as_ok a = ok a

then_before :
    (first rest : Comparison)
    → then_compare first rest ≡ before
    → (first ≡ before) ⊎ ((first ≡ same) × (rest ≡ before))
then_before before rest h = inl refl
then_before same rest h = inr (refl, h)
then_before after rest h = inl h

compare_parsed_trans :
    (a b c : Version)
    → length a.core ≡ length b.core
    → length b.core ≡ length c.core
    → compare_parsed a b ≡ before
    → compare_parsed b c ≡ before
    → compare_parsed a c ≡ before
unfolding compare_parsed
compare_parsed_trans a b c l m h k = elim (then_before (compare_core a.core b.core) _ h) [
  | inl first ↦ elim (then_before (compare_core b.core c.core) _ k) [
    | inl second ↦ rw (compare_core_trans a.core b.core c.core l m first second) refl
    | inr (second, _) ↦
        let equal = compare_core-same b.core c.core m second in
        let moved : compare_core a.core c.core ≡ before =
          subst (λ core. compare_core a.core core ≡ before) equal first in
        rw moved refl
  ]
  | inr (first, parts) ↦
      let equal = compare_core-same a.core b.core l first in
      elim (then_before (compare_core b.core c.core) _ k) [
        | inl second ↦
            let moved : compare_core a.core c.core ≡ before =
              subst (λ core. compare_core core c.core ≡ before) (sym equal) second in
            rw moved refl
        | inr (second, others) ↦
            let moved : compare_core a.core c.core ≡ same =
              subst (λ core. compare_core core c.core ≡ same) (sym equal) second in
            rw moved (compare_prerelease_trans a.prerelease b.prerelease c.prerelease parts others)
      ]
]

length-map : (f : List ℕ → ℕ) (parts : List (List ℕ)) → length (map f parts) ≡ length parts
length-map f [] = refl
length-map f (part ∷ parts) = ap suc (length-map f parts)

-- A version has three numbers.
parse_version-length :
    (value : String) (version : Version)
    → parse_version value ≡ ok version
    → length version.core ≡ 3
unfolding parse_version is_version
parse_version-length value version run =
    let (pattern, rest) = fail_if->>-eq-ok (not (is_version (codes value))) invalid_version _ run in
    let (safe, made) =
      fail_if->>-eq-ok (not (all_safe (core_of (codes value)))) invalid_version _ rest in
    let three : length (split_by is_dot (split_dash (codes value)).0) ≡ 3 = ground arith in
    let version_is = ok_injective made in
    ap (λ v. length v.core) (sym version_is) ∙ length-map (digits_value 0) _ ∙ three

-- What a comparison that succeeds has compared.
compared :
    (left right : String) (c : Comparison)
    → compare_versions left right ≡ ok c
    → (a : Version) × (b : Version) × (parse_version left ≡ ok a)
      × (parse_version right ≡ ok b)
      × (compare_parsed a b ≡ c)
unfolding compare_versions
compared left right c run =
    let (a, parsed_a, rest) = >>=-eq-ok (parse_version left) _ run in
    let (b, parsed_b, last) = >>=-eq-ok (parse_version right) _ rest in
    let result : compare_parsed a b ≡ c = cc in (a, b, parsed_a, parsed_b, result)

-- The order of versions is transitive: what comes before a version that comes before a third one
-- comes before that.
pub compare_versions_trans :
    (a b c : String)
    → compare_versions a b ≡ ok before
    → compare_versions b c ≡ ok before
    → compare_versions a c ≡ ok before
unfolding compare_versions
compare_versions_trans a b c h k =
    let (va, vb, parsed_a, parsed_b, first) = compared a b before h in
    let (vb', vc, parsed_b', parsed_c, second) = compared b c before k in
    let same_b : vb' ≡ vb = cc in
    let second_b : compare_parsed vb vc ≡ before =
      subst (λ v. compare_parsed v vc ≡ before) same_b second in
    let three_a = parse_version-length a va parsed_a in
    let three_b = parse_version-length b vb parsed_b in
    let three_c = parse_version-length c vc parsed_c in
    let both =
      compare_parsed_trans va vb vc (three_a ∙ sym three_b) (three_b ∙ sym three_c) first
        second_b in
    rw parsed_a (rw parsed_c (ap ok both))

-- The state of a newer version.
still_supported :
    (older newer minimum : String)
    → compare_versions older newer ≡ ok before
    → (compare_versions older minimum >>= λ c. ok (state_of c)) ≡ ok supported
    → (compare_versions newer minimum >>= λ c. ok (state_of c)) ≡ ok supported
unfolding compare_versions
still_supported older newer minimum h k =
    let (va, vb, parsed_a, parsed_b, first) = compared older newer before h in
    let (c, run, is_supported) =
      >>=-eq-ok (compare_versions older minimum) (λ c. ok (state_of c)) k in
    let (va', vm, parsed_a', parsed_m, second) = compared older minimum c run in
    rw parsed_b
      (rw parsed_m (by_case (compare_parsed vb vm) c refl run is_supported parsed_b parsed_m))
  where
    by_case :
        {vb vm : Version} (newer_is older_is : Comparison)
        → compare_parsed vb vm ≡ newer_is
        → compare_versions older minimum ≡ ok older_is
        → as_ok (state_of older_is) ≡ as_ok supported
        → parse_version newer ≡ ok vb
        → parse_version minimum ≡ ok vm
        → as_ok (state_of newer_is) ≡ as_ok supported
    by_case same older_is e run s pb pm = refl
    by_case after older_is e run s pb pm = refl
    by_case before older_is e run s pb pm =
        let newer_run : compare_versions newer minimum ≡ ok before = rw pb (rw pm (ap ok e)) in
        let older_run = compare_versions_trans older newer minimum h newer_run in
        let same_run : as_ok older_is ≡ as_ok before = sym run ∙ older_run in
        let equal : older_is ≡ before = cc in
        let clash : as_ok (state_of before) ≡ as_ok supported =
          subst (λ c. as_ok (state_of c) ≡ as_ok supported) equal s in
        cc

-- A version that the policy supports stays supported by an upgrade: any later version is supported
-- too, at the same time under the same policy.
pub release_state_later :
    (parse : String → Option ℕ) (policy : ReleasePolicy) (now : ℕ) (older newer : String)
    → compare_versions older newer ≡ ok before
    → release_state parse older policy now ≡ ok supported
    → release_state parse newer policy now ≡ ok supported
unfolding release_state
release_state_later parse policy now older newer h k =
    let (va, vb, parsed_a, parsed_b, first) = compared older newer before h in
    let (v, parsed, decision) = >>=-eq-ok (parse_version older) _ k in
    elim (Bool-cases (is_later parse (parse policy.effective_at) now)) [
      | inl e ↦ rw parsed_b (rw e refl)
      | inr e ↦
          let older_run : (compare_versions older policy.minimum_supported_version >>= λ c.
          ok (state_of c))
              ≡ ok supported =
            subst
              (λ b.
                (if b
                  then ok supported
                  else (compare_versions older policy.minimum_supported_version >>= λ c.
                      ok (state_of c)))
                ≡ ok supported)
              e decision in
          let newer_run =
            still_supported older newer policy.minimum_supported_version h older_run in
          rw parsed_b (rw e newer_run)
    ]
