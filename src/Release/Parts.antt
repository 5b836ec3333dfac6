-- ===== src/Release/Parts.antt =====
-- The order of the parts of versions.
use teti_bot.Base.{
  ℕ, ◌≡◌, refl, sym, ap, ◌∙◌, inl, inr, Bool, true, false, List, [], ◌∷◌, arith, ◌==◌,
  number_equality, text_equality, if◌then◌else◌, Bool-cases, ==_refl, subst,
}
use teti_bot.Base.{length, same_codes}
use teti_bot.Identity.Plain.{same_codes-eq}
use teti_bot.Release.{
  compare_parts, part_before, text_before, before, Comparison, compare_core, compare_prerelease,
  same, after,
}

text_before_irreflexive : (a : List ℕ) → text_before a a ≡ false
unfolding text_before
text_before_irreflexive [] = refl
text_before_irreflexive (x ∷ xs) = rw (==_refl x) (text_before_irreflexive xs)

text_before_trans :
    (a b c : List ℕ) → text_before a b ≡ true → text_before b c ≡ true → text_before a c ≡ true
unfolding text_before
text_before_trans [] [] c h k = ground arith
text_before_trans [] (y ∷ ys) [] h k = ground arith
text_before_trans [] (y ∷ ys) (z ∷ zs) h k = refl
text_before_trans (x ∷ xs) [] c h k = ground arith
text_before_trans (x ∷ xs) (y ∷ ys) [] h k = ground arith
text_before_trans (x ∷ xs) (y ∷ ys) (z ∷ zs) h k =
    let rest = text_before_trans xs ys zs in ground arith

part_before_irreflexive : (a : List ℕ) → part_before a a ≡ false
unfolding part_before
part_before_irreflexive a = let texts = text_before_irreflexive a in ground arith

part_before_trans :
    (a b c : List ℕ) → part_before a b ≡ true → part_before b c ≡ true → part_before a c ≡ true
unfolding part_before
part_before_trans a b c h k = let texts = text_before_trans a b c in ground arith

pub same_codes_refl : (a : List ℕ) → same_codes a a ≡ true
unfolding same_codes
same_codes_refl [] = refl
same_codes_refl (x ∷ xs) = rw (==_refl x) (same_codes_refl xs)

pub differ :
    (a b c : List ℕ) → part_before a b ≡ true → part_before b c ≡ true → same_codes a c ≡ false
differ a b c h k = elim (Bool-cases (same_codes a c)) [
  | inl e ↦
      let equal = same_codes-eq a c e in
      let back : part_before b a ≡ true = subst (λ x. part_before b x ≡ true) (sym equal) k in
      let round = part_before_trans a b a h back in
      let irreflexive = part_before_irreflexive a in ground arith
  | inr e ↦ e
]

decided :
    (s t : Bool) (rest : Comparison)
    → (if s then rest else if t then before else after) ≡ before
    → s ≡ false
    → t ≡ true
decided s t rest h e = ground arith

compare_parts_trans :
    (a b c : List (List ℕ))
    → compare_parts a b ≡ before
    → compare_parts b c ≡ before
    → compare_parts a c ≡ before
unfolding compare_parts
compare_parts_trans [] [] c h k = cc
compare_parts_trans [] (y ∷ ys) [] h k = cc
compare_parts_trans [] (y ∷ ys) (z ∷ zs) h k = refl
compare_parts_trans (x ∷ xs) [] c h k = cc
compare_parts_trans (x ∷ xs) (y ∷ ys) [] h k = cc
compare_parts_trans (x ∷ xs) (y ∷ ys) (z ∷ zs) h k = elim (Bool-cases (same_codes x y)) [
  | inl e ↦
      let equal = same_codes-eq x y e in
      let first : compare_parts xs ys ≡ before = ground arith in
      elim (Bool-cases (same_codes y z)) [
        | inl f ↦
            let second : compare_parts ys zs ≡ before = ground arith in
            let rest = compare_parts_trans xs ys zs first second in
            subst (λ w. compare_parts (w ∷ xs) (z ∷ zs) ≡ before) (sym equal) (rw f rest)
        | inr f ↦
            let second : part_before y z ≡ true = decided _ _ _ k f in
            subst (λ w. compare_parts (w ∷ xs) (z ∷ zs) ≡ before) (sym equal)
              (rw f (rw second refl))
      ]
  | inr e ↦
      let first : part_before x y ≡ true = decided _ _ _ h e in
      elim (Bool-cases (same_codes y z)) [
        | inl f ↦
            let equal = same_codes-eq y z f in
            subst (λ w. compare_parts (x ∷ xs) (w ∷ zs) ≡ before) equal (rw e (rw first refl))
        | inr f ↦
            let second : part_before y z ≡ true = decided _ _ _ k f in
            let apart = differ x y z first second in
            let all_before = part_before_trans x y z first second in rw apart (rw all_before refl)
      ]
]

pub compare_prerelease_trans :
    (a b c : List (List ℕ))
    → compare_prerelease a b ≡ before
    → compare_prerelease b c ≡ before
    → compare_prerelease a c ≡ before
unfolding compare_prerelease
compare_prerelease_trans [] [] c h k = cc
compare_prerelease_trans [] (y ∷ ys) c h k = cc
compare_prerelease_trans (x ∷ xs) [] [] h k = refl
compare_prerelease_trans (x ∷ xs) [] (z ∷ zs) h k = cc
compare_prerelease_trans (x ∷ xs) (y ∷ ys) [] h k = refl
compare_prerelease_trans (x ∷ xs) (y ∷ ys) (z ∷ zs) h k =
    compare_parts_trans (x ∷ xs) (y ∷ ys) (z ∷ zs) h k

pub compare_core-same : (a b : List ℕ) → length a ≡ length b → compare_core a b ≡ same → a ≡ b
unfolding compare_core
compare_core-same [] [] l h = refl
compare_core-same [] (y ∷ ys) l h = ground arith
compare_core-same (x ∷ xs) [] l h = ground arith
compare_core-same (x ∷ xs) (y ∷ ys) l h = elim (Bool-cases (x == y)) [
  | inl e ↦
      let heads : x ≡ y = ground arith in
      let rest_same : compare_core xs ys ≡ same = ground arith in
      let tails = compare_core-same xs ys (ground arith) rest_same in
      ap (λ w. w ∷ xs) heads ∙ ap (λ w. y ∷ w) tails
  | inr e ↦ ground arith
]

pub compare_core_trans :
    (a b c : List ℕ)
    → length a ≡ length b
    → length b ≡ length c
    → compare_core a b ≡ before
    → compare_core b c ≡ before
    → compare_core a c ≡ before
unfolding compare_core
compare_core_trans [] b c l m h k = cc
compare_core_trans (x ∷ xs) [] c l m h k = cc
compare_core_trans (x ∷ xs) (y ∷ ys) [] l m h k = cc
compare_core_trans (x ∷ xs) (y ∷ ys) (z ∷ zs) l m h k =
    let rest = compare_core_trans xs ys zs (ground arith) (ground arith) in ground arith
