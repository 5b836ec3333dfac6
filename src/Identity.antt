-- ===== src/Identity.antt =====
-- core/identity/public-id.ts: public Teti ids and mail addresses, their patterns and their normal forms,
-- on the code points of a text.
pub mod Plain
pub mod Laws
mod Tests
use teti_bot.Base.{
  ℕ, zero, suc, ◌+◌, ◌-◌, ◌≤◌, ◌<◌, String, ◌≡◌, refl, sym, ap, ◌∙◌, ◌≢◌, ◌↔◌, ◌⊎◌, inl, inr, Bool,
  true, false, not, ◌&&◌, ◌||◌, Option, none, some, List, [], ◌∷◌, ◌++◌, map, arith, ◌==◌, ◌!=◌,
  number_equality, text_equality, if◌then◌else◌, Result, ok, err, ◌>>=◌, ◌>>◌, All, Bool-cases,
  eq_iff,
}
use teti_bot.Base.{leb, ltb, length, all, any, take, drop, codes, is_space, same_codes}

-- `[a-z0-9]`.
unfoldable pub is_code_char : ℕ → Bool
is_code_char c = (leb b'a' c && leb c b'z') || (leb b'0' c && leb c b'9')

abbrev pub public_id_code_length : ℕ
public_id_code_length = 9

-- `/^teti_[a-z0-9]{9}$/`.
unfoldable pub is_public_id_codes : List ℕ → Bool
unfolding is_code_char
is_public_id_codes (t ∷ e ∷ t' ∷ i ∷ u ∷ code) =
    t == b't'
    && e == b'e'
    && t' == b't'
    && i == b'i'
    && u == b'_'
    && length code == public_id_code_length
    && all is_code_char code
is_public_id_codes _ = false

unfoldable pub is_canonical_public_id : String → Bool
unfolding is_public_id_codes
is_canonical_public_id value = is_public_id_codes (codes value)

-- `/^[a-z0-9]{9}$/`.
abbrev pub is_code_codes : List ℕ → Bool
is_code_codes v = length v == public_id_code_length && all is_code_char v

-- `/^[a-z0-9]{9}@mail\.seep\.im$/`.
unfoldable pub is_address_codes : List ℕ → Bool
is_address_codes v =
    is_code_codes (take public_id_code_length v)
    && same_codes (drop public_id_code_length v) (codes "@mail.seep.im")

-- The rest of a part behind its first character: it ends in `[a-z0-9]`, and `p` holds before that.
unfoldable pub ends_well : (ℕ → Bool) → List ℕ → Bool
ends_well p [] = true
ends_well p (c ∷ []) = is_code_char c
ends_well p (c ∷ cs) = p c && ends_well p cs

-- `[a-z0-9](?:p{0,n-1}[a-z0-9])?`.
abbrev pub is_part : (ℕ → Bool) → ℕ → List ℕ → Bool
is_part p n [] = false
is_part p n (c ∷ cs) = is_code_char c && leb (length cs) n && ends_well p cs

abbrev pub is_mailbox_char : ℕ → Bool
is_mailbox_char c = is_code_char c || c == b'.' || c == b'_' || c == b'+' || c == b'-'

abbrev pub is_label_char : ℕ → Bool
is_label_char c = is_code_char c || c == b'-'

abbrev push : ℕ → List (List ℕ) → List (List ℕ)
push c [] = (c ∷ []) ∷ []
push c (part ∷ parts) = (c ∷ part) ∷ parts

-- The parts between the dots.
unfoldable pub split_dots : List ℕ → List (List ℕ)
split_dots [] = [] ∷ []
split_dots (c ∷ cs) = let parts = split_dots cs in if c == b'.' then [] ∷ parts else push c parts

-- `TETI_RELAY_DOMAIN_PATTERN`: at least two labels.
unfoldable pub is_domain : List ℕ → Bool
is_domain v =
    ltb 0 (length v)
    && leb (length v) 253
    && leb 2 (length (split_dots v))
    && all (is_part is_label_char 62) (split_dots v)

-- The text before the first `@`, and the text behind it.
unfoldable pub before_at : List ℕ → List ℕ
before_at [] = []
before_at (c ∷ cs) = let rest = before_at cs in if c == b'@' then [] else c ∷ rest

unfoldable pub after_at : List ℕ → Option (List ℕ)
after_at [] = none
after_at (c ∷ cs) = let rest = after_at cs in if c == b'@' then some cs else rest

abbrev pub is_relay_split : List ℕ → Option (List ℕ) → Bool
is_relay_split before none = false
is_relay_split before (some after) =
    ltb 0 (length before)
    && not (any (λ c. c == b'@') after)
    && is_part is_mailbox_char 63 before
    && is_domain after

unfoldable pub is_relay_codes : List ℕ → Bool
is_relay_codes v = leb (length v) 320 && is_relay_split (before_at v) (after_at v)

-- `String.prototype.toLowerCase` on one character, as far as a pattern above can tell: the capitals, and
-- the Kelvin sign, which is the only other character whose lower case is a character of the patterns.
abbrev pub lower : ℕ → ℕ
lower c = if leb b'A' c && leb c b'Z' then c + 32 else if c == 0x212a then b'k' else c

unfoldable pub trim_start : List ℕ → List ℕ
trim_start [] = []
trim_start (c ∷ cs) = let rest = trim_start cs in if is_space c then rest else c ∷ cs

abbrev keep_or_end : ℕ → List ℕ → List ℕ
keep_or_end c [] = if is_space c then [] else c ∷ []
keep_or_end c (d ∷ rest) = c ∷ d ∷ rest

unfoldable pub trim_end : List ℕ → List ℕ
trim_end [] = []
trim_end (c ∷ cs) = keep_or_end c (trim_end cs)

-- `value.trim().toLowerCase()`.
unfoldable pub normalized : List ℕ → List ℕ
unfolding trim_start trim_end
normalized v = map lower (trim_end (trim_start v))

-- What is normalised: the code of an id, an id, an address at the program's own domain, any address.
pub data Form : Type 0 where
  code public_id address relay_address : Form

unfoldable pub matches : Form → List ℕ → Bool
unfolding is_public_id_codes is_address_codes is_relay_codes
matches code v = is_code_codes v
matches public_id v = is_public_id_codes v
matches address v = is_address_codes v
matches relay_address v = is_relay_codes v

-- `normalizeTetiPublicIdCode`, `normalizeTetiPublicId`, `normalizeTetiChatmailAddress` and
-- `normalizeTetiRelayChatmailAddress`; the error is the form that the text does not have.
unfoldable pub normalize : Form → List ℕ → Result Form (List ℕ)
normalize form v = let w = normalized v in if matches form w then ok w else err form

abbrev same_result : Result Form (List ℕ) → List ℕ → Bool
same_result (err form) v = false
same_result (ok w) v = same_codes w v

unfoldable pub is_canonical_relay_address : List ℕ → Bool
is_canonical_relay_address v = same_result (normalize relay_address v) v

-- `tetiPublicIdFromAddress`.
unfoldable pub public_id_from_address : List ℕ → Result Form (List ℕ)
public_id_from_address v = do
  w ← normalize address v
  ok (codes "teti_" ++ take public_id_code_length w)

abbrev has_public_id : List ℕ → Option (List ℕ) → Bool
has_public_id v none = true
has_public_id v (some id) = same_codes (codes "teti_" ++ take public_id_code_length v) id

-- `isCanonicalTetiChatmailAddress`, with the id that the address is to belong to, if it is given.
unfoldable pub is_canonical_chatmail_address : List ℕ → Option (List ℕ) → Bool
unfolding is_address_codes
is_canonical_chatmail_address v id = is_address_codes v && has_public_id v id

-- `isTetiRelayChatmailAddress`.
unfoldable pub is_teti_relay_address : List ℕ → List ℕ → Bool
unfolding is_public_id_codes is_canonical_relay_address
is_teti_relay_address v id = is_public_id_codes id && is_canonical_relay_address v
