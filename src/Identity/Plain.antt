-- ===== src/Identity/Plain.antt =====
-- public-id.ts: a text of a pattern has only characters that trimming and small letters leave alone.
use teti_bot.Base.{
  ℕ, zero, suc, ◌≡◌, refl, sym, ap, ◌∙◌, inl, inr, Bool, true, false, ◌&&◌, ◌||◌, Option, none,
  some, List, [], ◌∷◌, map, arith, ◌==◌, number_equality, text_equality, Bool-cases, subst,
}
use teti_bot.Base.{length, all, take, drop, codes, is_space, same_codes, or_else}
use teti_bot.Identity.{
  is_code_char, is_public_id_codes, is_address_codes, ends_well, is_part, is_mailbox_char,
  is_label_char, split_dots, push, is_domain, before_at, after_at, is_relay_split, is_relay_codes,
  lower, trim_start, trim_end, keep_or_end, normalized, Form, matches,
}

-- A character of the patterns.
abbrev pub is_plain : ℕ → Bool
is_plain c = is_mailbox_char c || c == b'@'

plain-kept : (c : ℕ) → is_plain c ≡ true → (is_space c ≡ false) × (lower c ≡ c)
unfolding is_space is_code_char
plain-kept c h = ground arith

trim_start-plain : (v : List ℕ) → all is_plain v ≡ true → trim_start v ≡ v
unfolding trim_start
trim_start-plain [] h = refl
trim_start-plain (c ∷ cs) h =
    let first : is_plain c ≡ true = ground arith in rw (plain-kept c first).0 refl

trim_end-plain : (v : List ℕ) → all is_plain v ≡ true → trim_end v ≡ v
unfolding trim_end
trim_end-plain [] h = refl
trim_end-plain (c ∷ cs) h =
    let first : is_plain c ≡ true = ground arith in
    let rest : all is_plain cs ≡ true = ground arith in
    ap (keep_or_end c) (trim_end-plain cs rest) ∙ keep c cs (plain-kept c first).0
  where
    keep : (c : ℕ) (cs : List ℕ) → is_space c ≡ false → keep_or_end c cs ≡ c ∷ cs
    keep c [] e = rw e refl
    keep c (d ∷ ds) e = refl

lower-plain : (v : List ℕ) → all is_plain v ≡ true → map lower v ≡ v
lower-plain [] h = refl
lower-plain (c ∷ cs) h =
    let first : is_plain c ≡ true = ground arith in
    let rest : all is_plain cs ≡ true = ground arith in
    ap (λ x. x ∷ map lower cs) (plain-kept c first).1 ∙ ap (◌∷◌ c) (lower-plain cs rest)

pub normalized-plain : (v : List ℕ) → all is_plain v ≡ true → normalized v ≡ v
unfolding normalized
normalized-plain v h =
    ap (λ x. map lower (trim_end x)) (trim_start-plain v h)
    ∙ (ap (map lower) (trim_end-plain v h) ∙ lower-plain v h)

all_code-plain : (v : List ℕ) → all is_code_char v ≡ true → all is_plain v ≡ true
all_code-plain [] h = refl
all_code-plain (c ∷ cs) h = ground (arith, all_code-plain cs)

pub same_codes-eq : (v w : List ℕ) → same_codes v w ≡ true → v ≡ w
unfolding same_codes
same_codes-eq [] [] h = refl
same_codes-eq [] (d ∷ ds) h = cc
same_codes-eq (c ∷ cs) [] h = cc
same_codes-eq (c ∷ cs) (d ∷ ds) h = ground (arith, same_codes-eq cs ds)

all-take-drop :
    (p : ℕ → Bool) (n : ℕ) (v : List ℕ)
    → all p (take n v) ≡ true
    → all p (drop n v) ≡ true
    → all p v ≡ true
all-take-drop p zero v h k = k
all-take-drop p (suc n) [] h k = refl
all-take-drop p (suc n) (c ∷ cs) h k =
    let first : p c ≡ true = ground arith in rw first (all-take-drop p n cs (ground arith) k)

ends_well-plain :
    (p : ℕ → Bool) (v : List ℕ)
    → ((c : ℕ) → p c ≡ true → is_plain c ≡ true)
    → ends_well p v ≡ true
    → all is_plain v ≡ true
unfolding ends_well
ends_well-plain p [] f h = refl
ends_well-plain p (c ∷ []) f h = rw h refl
ends_well-plain p (c ∷ d ∷ cs) f h =
    let good : p c ≡ true = ground arith in
    rw (f c good) (ends_well-plain p (d ∷ cs) f (ground arith))

part-plain :
    (p : ℕ → Bool) (n : ℕ) (v : List ℕ)
    → ((c : ℕ) → p c ≡ true → is_plain c ≡ true)
    → is_part p n v ≡ true
    → all is_plain v ≡ true
part-plain p n [] f h = refl
part-plain p n (c ∷ cs) f h =
    let first : is_code_char c ≡ true = ground arith in
    rw first (ends_well-plain p cs f (ground arith))

all_part-plain :
    (parts : List (List ℕ))
    → all (is_part is_label_char 62) parts ≡ true
    → all (all is_plain) parts ≡ true
all_part-plain [] h = refl
all_part-plain (v ∷ parts) h =
    let plain = part-plain is_label_char 62 v (λ c k. ground arith) (ground arith) in
    rw plain (all_part-plain parts (ground arith))

push-plain :
    (c : ℕ) (parts : List (List ℕ))
    → all (all is_plain) (push c parts) ≡ true
    → (is_plain c ≡ true) × (all (all is_plain) parts ≡ true)
push-plain c [] h = ground arith
push-plain c (v ∷ parts) h = ground arith

split_dots-plain : (v : List ℕ) → all (all is_plain) (split_dots v) ≡ true → all is_plain v ≡ true
unfolding split_dots
split_dots-plain [] h = refl
split_dots-plain (c ∷ cs) h = elim (Bool-cases (c == b'.')) [
  | inl e ↦
      let plain : is_plain c ≡ true = ground arith in rw plain (split_dots-plain cs (rw e at h))
  | inr e ↦
      let (plain, rest) = push-plain c (split_dots cs) (rw e at h) in
      rw plain (split_dots-plain cs rest)
]

at-plain :
    (v after : List ℕ)
    → after_at v ≡ some after
    → all is_plain (before_at v) ≡ true
    → all is_plain after ≡ true
    → all is_plain v ≡ true
unfolding before_at after_at
at-plain [] after h p q = refl
at-plain (c ∷ cs) after h p q = elim (Bool-cases (c == b'@')) [
  | inl e ↦
      let same : some cs ≡ some after = rw e at h in
      let plain : is_plain c ≡ true = ground arith in
      rw plain (subst (λ x. all is_plain x ≡ true) (sym (ap (λ o. or_else o cs) same)) q)
  | inr e ↦
      let kept : all is_plain (c ∷ before_at cs) ≡ true = rw e at p in
      let plain : is_plain c ≡ true = ground arith in
      rw plain (at-plain cs after (rw e at h) (ground arith) q)
]

&&-true : (p q : Bool) → (p && q) ≡ true → (p ≡ true) × (q ≡ true)
&&-true true q h = (refl, h)
&&-true false q h = cc

plain-== : (c d : ℕ) → is_plain d ≡ true → (c == d) ≡ true → is_plain c ≡ true
plain-== c d h e = subst (λ x. is_plain x ≡ true) (sym ((number_equality.test_iff c d).0 e)) h

public_id-plain : (v : List ℕ) → is_public_id_codes v ≡ true → all is_plain v ≡ true
unfolding is_public_id_codes is_code_char
public_id-plain [] h = cc
public_id-plain (a ∷ []) h = cc
public_id-plain (a ∷ b ∷ []) h = cc
public_id-plain (a ∷ b ∷ c ∷ []) h = cc
public_id-plain (a ∷ b ∷ c ∷ d ∷ []) h = cc
public_id-plain (a ∷ b ∷ c ∷ d ∷ e ∷ code) h =
    let (h₁, all_code) = &&-true _ (all is_code_char code) h in
    let (h₂, _) = &&-true _ (length code == 9) h₁ in
    let (h₃, t) = &&-true _ (e == b'_') h₂ in
    let (h₄, s) = &&-true _ (d == b'i') h₃ in
    let (h₅, r) = &&-true _ (c == b't') h₄ in
    let (p, q) = &&-true (a == b't') (b == b'e') h₅ in
    let rest = all_code-plain code all_code in
    rw (plain-== a b't' refl p) (
      rw (plain-== b b'e' refl q) (
        rw (plain-== c b't' refl r)
          (rw (plain-== d b'i' refl s) (rw (plain-== e b'_' refl t) rest))))

address-plain : (v : List ℕ) → is_address_codes v ≡ true → all is_plain v ≡ true
unfolding is_address_codes is_code_char
address-plain v h =
    let name : all is_code_char (take 9 v) ≡ true = ground arith in
    let domain : same_codes (drop 9 v) (codes "@mail.seep.im") ≡ true = ground arith in
    all-take-drop is_plain 9 v (all_code-plain (take 9 v) name)
      (rw (same_codes-eq (drop 9 v) (codes "@mail.seep.im") domain) refl)

relay-plain :
    (v before : List ℕ) (after : Option (List ℕ))
    → before_at v ≡ before
    → after_at v ≡ after
    → is_relay_split before after ≡ true
    → all is_plain v ≡ true
unfolding is_domain
relay-plain v before none p q h = cc
relay-plain v before (some after) p q h =
    let mailbox : is_part is_mailbox_char 63 before ≡ true = ground arith in
    let domain : all (is_part is_label_char 62) (split_dots after) ≡ true = ground arith in
    at-plain v after q (rw p (part-plain is_mailbox_char 63 before (λ c k. ground arith) mailbox))
      (split_dots-plain after (all_part-plain (split_dots after) domain))

pub matches-plain : (form : Form) (v : List ℕ) → matches form v ≡ true → all is_plain v ≡ true
unfolding matches is_relay_codes
matches-plain Form.code v h = all_code-plain v (ground arith)
matches-plain Form.public_id v h = public_id-plain v h
matches-plain Form.address v h = address-plain v h
matches-plain Form.relay_address v h =
    relay-plain v (before_at v) (after_at v) refl refl (ground arith)
