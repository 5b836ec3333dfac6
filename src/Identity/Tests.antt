-- ===== src/Identity/Tests.antt =====
-- Concrete ids and addresses.
use teti_bot.Base.{ℕ, ◌≡◌, refl, true, List, number_equality, text_equality, ok}
use teti_bot.Base.{codes, is_space, same_codes}
use teti_bot.Identity.{
  is_code_char, is_public_id_codes, is_address_codes, ends_well, split_dots, is_domain, before_at,
  after_at, is_relay_codes, normalized, Form, matches, normalize, is_canonical_relay_address,
  public_id_from_address, trim_start, trim_end,
}
use teti_bot.Identity.Laws.{normalize_again}

computes : Unit {0}
unfolding is_space same_codes is_code_char is_public_id_codes is_address_codes ends_well split_dots
    is_domain before_at after_at is_relay_codes normalized matches normalize
    is_canonical_relay_address public_id_from_address trim_start trim_end
computes = tt

abbrev relay : List ℕ
relay = codes "some.one@mail.example.org"

-- The address without its surrounding space and in small letters.
relay-normalize : normalize Form.relay_address (codes " Some.One@mail.Example.org ") ≡ ok relay
unfolding computes
relay-normalize = refl

normalize_again_example :
    (matches Form.relay_address relay ≡ true) × (normalize Form.relay_address relay ≡ ok relay)
normalize_again_example =
    normalize_again Form.relay_address (codes " Some.One@mail.Example.org ") relay relay-normalize
