-- ===== src/Identity/Laws.antt =====
-- public-id.ts: normal forms are the texts of a pattern.
use teti_bot.Base.{ok_injective, some, ap, ◌∙◌}
use teti_bot.Identity.{is_canonical_chatmail_address}
use teti_bot.Base.{
  ℕ, ◌≡◌, refl, sym, ◌↔◌, inl, inr, true, List, [], ◌∷◌, ◌++◌, arith, number_equality,
  text_equality, Result, ok, err, Bool-cases, subst,
}
use teti_bot.Base.{take, codes, same_codes, ==_refl, >>=-eq-ok}
use teti_bot.Identity.{
  public_id_code_length, is_public_id_codes, is_code_codes, is_address_codes, normalized, Form,
  matches, normalize, same_result, is_canonical_relay_address, public_id_from_address,
}
use teti_bot.Identity.Plain.{normalized-plain, matches-plain, same_codes-eq}

normalize-ok : (form : Form) (v w : List ℕ) → normalize form v ≡ ok w → matches form w ≡ true
unfolding normalize
normalize-ok form v w h = elim (Bool-cases (matches form (normalized v))) [
  | inl e ↦ let same : normalized v ≡ w = ground arith in subst (λ x. matches form x ≡ true) same e
  | inr e ↦ absurd (ground arith)
]

-- A text has one of the four forms exactly when normalising it succeeds with the text itself.
matches-normalize : (form : Form) (v : List ℕ) → (matches form v ≡ true) ↔ (normalize form v ≡ ok v)
unfolding normalize
matches-normalize form v = (
  λ h. rw (normalized-plain v (matches-plain form v h)) (rw h refl),
  λ h. normalize-ok form v v h,
)

-- A text that normalising gives has the form, and normalising it again gives it again.
pub normalize_again :
    (form : Form) (v w : List ℕ)
    → normalize form v ≡ ok w
    → (matches form w ≡ true) × (normalize form w ≡ ok w)
normalize_again form v w h =
    let good = normalize-ok form v w h in (good, (matches-normalize form w).0 good)

all_code-length :
    (v : List ℕ) → is_code_codes v ≡ true → is_public_id_codes (codes "teti_" ++ v) ≡ true
unfolding is_public_id_codes
all_code-length v h = ground arith

-- The id read off an address that is the program's own once it is normalised is a public Teti id, and
-- the address that it is read off begins with the id's code.
public_id_from_address-matches :
    (v w : List ℕ)
    → public_id_from_address v ≡ ok w
    → (matches Form.public_id w ≡ true)
      × (a : List ℕ) × (normalize Form.address v ≡ ok a)
      × (w ≡ codes "teti_" ++ take public_id_code_length a)
unfolding public_id_from_address matches is_address_codes
public_id_from_address-matches v w h =
    let (a, made, last) =
      >>=-eq-ok (normalize Form.address v) (λ x. ok (codes "teti_" ++ take public_id_code_length x))
        h in
    let same : codes "teti_" ++ take public_id_code_length a ≡ w = cc in
    let address = normalize-ok Form.address v a made in
    let code : is_code_codes (take public_id_code_length a) ≡ true = ground arith in
    (
      subst (λ x. is_public_id_codes x ≡ true) same
          (all_code-length (take public_id_code_length a) code),
      a,
      made,
      sym same,
    )

same_codes_refl : (u : List ℕ) → same_codes u u ≡ true
unfolding same_codes
same_codes_refl [] = refl
same_codes_refl (c ∷ cs) = rw (==_refl c) (same_codes_refl cs)

-- An address is canonical exactly when it matches the patterns of a mailbox and a domain.
is_canonical_relay_address_iff :
    (v : List ℕ) → (is_canonical_relay_address v ≡ true) ↔ (matches Form.relay_address v ≡ true)
unfolding is_canonical_relay_address
is_canonical_relay_address_iff v = (
  λ h. to (normalize Form.relay_address v) refl h,
  λ h. rw ((matches-normalize Form.relay_address v).0 h) (same_codes_refl v),
)
  where
    to :
        (r : Result Form (List ℕ))
        → normalize Form.relay_address v ≡ r
        → same_result r v ≡ true
        → matches Form.relay_address v ≡ true
    to (err form) e h = cc
    to (ok w) e h =
        let same = same_codes-eq w v h in
        subst (λ x. matches Form.relay_address x ≡ true) same
          (normalize-ok Form.relay_address v w e)

-- A text is the canonical address of an id exactly when it is its own normal form as an address and the
-- id is the one that is read off it.
is_canonical_chatmail_address_iff :
    (v id : List ℕ)
    → (is_canonical_chatmail_address v (some id) ≡ true)
      ↔ ((normalize Form.address v ≡ ok v) × (public_id_from_address v ≡ ok id))
unfolding is_canonical_chatmail_address public_id_from_address matches
is_canonical_chatmail_address_iff v id = (to, λ (made, read). from made read)
  where
    to :
        is_canonical_chatmail_address v (some id) ≡ true
        → (normalize Form.address v ≡ ok v) × (public_id_from_address v ≡ ok id)
    to h =
        let good : matches Form.address v ≡ true = ground arith in
        let made = (matches-normalize Form.address v).0 good in
        let belongs : same_codes (codes "teti_" ++ take public_id_code_length v) id ≡ true =
          ground arith in
        (
          made,
          rw made
              (ap ok (same_codes-eq (codes "teti_" ++ take public_id_code_length v) id belongs)),
        )

    from :
        normalize Form.address v ≡ ok v
        → public_id_from_address v ≡ ok id
        → is_canonical_chatmail_address v (some id) ≡ true
    from made read =
        let good : matches Form.address v ≡ true = normalize-ok Form.address v v made in
        let (_, a, made', same) = public_id_from_address-matches v id read in
        let whole : v ≡ a = ok_injective (sym made ∙ made') in
        let belongs : codes "teti_" ++ take public_id_code_length v ≡ id =
          ap (λ x. codes "teti_" ++ take public_id_code_length x) whole ∙ sym same in
        let tested : same_codes (codes "teti_" ++ take public_id_code_length v) id ≡ true =
          subst (λ x. same_codes (codes "teti_" ++ take public_id_code_length v) x ≡ true) belongs
            (same_codes_refl (codes "teti_" ++ take public_id_code_length v)) in
        ground arith
