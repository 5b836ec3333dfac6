-- ===== src/Base/Text.antt =====
-- Text as the program reads it: blank tests and the character classes of its patterns.
use Prim.Native.Nat.{ℕ, zero, suc, ◌+◌, ◌/◌, ◌%◌}
use Prim.Native.Char.{code}
use Prim.Native.String.{String, ◌++◌ as append}
use mathlib.Core.Bool.{Bool, true, false, ◌&&◌, ◌||◌}
use mathlib.Core.List.{List, [], ◌∷◌}
use teti_bot.Base.Tests.{leb, ltb, if◌then◌else◌, ◌==◌, number_equality}

-- The code points of a text.
abbrev pub codes : String → List ℕ
codes String.[] = []
codes (String.◌∷◌ c s) = code c ∷ codes s

-- White space and line ends, which `String.prototype.trim` removes.
unfoldable pub is_space : ℕ → Bool
is_space c =
    (leb 9 c && leb c 13)
    || c == 0x20
    || c == 0xa0
    || c == 0x1680
    || (leb 0x2000 c && leb c 0x200a)
    || c == 0x2028
    || c == 0x2029
    || c == 0x202f
    || c == 0x205f
    || c == 0x3000
    || c == 0xfeff

all_space : List ℕ → Bool
all_space [] = true
all_space (c ∷ cs) = is_space c && all_space cs

-- `!value.trim()`: nothing is left after trimming.
unfoldable pub is_blank : String → Bool
unfolding all_space is_space
is_blank s = all_space (codes s)

-- `String(n)`, by the code points of its decimal digits; 20 digits hold every safe integer.
decimal_from : ℕ → ℕ → List ℕ → List ℕ
decimal_from zero n tail = tail
decimal_from (suc fuel) n tail =
    let longer = decimal_from fuel (n / 10) ((48 + n % 10) ∷ tail) in
    if ltb n 10 then (48 + n) ∷ tail else longer

unfoldable pub decimal : ℕ → List ℕ
unfolding decimal_from
decimal n = decimal_from 20 n []

unfoldable pub same_codes : List ℕ → List ℕ → Bool
same_codes [] [] = true
same_codes (a ∷ as') (b ∷ bs) = a == b && same_codes as' bs
same_codes _ _ = false

-- `Number.isSafeInteger` of a number that is an integer and at least 0.
abbrev pub max_safe_integer : ℕ
max_safe_integer = 9007199254740991

-- `[A-Za-z0-9]`.
unfoldable pub is_alnum : ℕ → Bool
is_alnum c = (leb b'a' c && leb c b'z') || (leb b'A' c && leb c b'Z') || (leb b'0' c && leb c b'9')

-- The digits of `String(n)` as a text.
digit : ℕ → String
digit n =
    if n == 0
    then "0"
    else if n == 1
    then "1"
    else if n == 2
    then "2"
    else if n == 3
    then "3"
    else if n == 4
    then "4"
    else if n == 5
    then "5"
    else if n == 6
    then "6"
    else if n == 7
    then "7"
    else if n == 8
    then "8"
    else "9"

decimal_text_from : ℕ → ℕ → String → String
unfolding digit
decimal_text_from zero n tail = tail
decimal_text_from (suc fuel) n tail =
    let longer = decimal_text_from fuel (n / 10) (append (digit (n % 10)) tail) in
    if ltb n 10 then append (digit n) tail else longer

unfoldable pub decimal_text : ℕ → String
unfolding decimal_text_from
decimal_text n = decimal_text_from 20 n ""

-- A text in front of a number, as in a template literal.
unfoldable pub numbered : String → ℕ → String
unfolding decimal_text
numbered prefix n = append prefix (decimal_text n)

-- The bytes of a character in UTF-8.
unfoldable pub utf8_size : ℕ → ℕ
utf8_size c = if ltb c 0x80 then 1 else if ltb c 0x800 then 2 else if ltb c 0x10000 then 3 else 4

-- `new TextEncoder().encode(value).byteLength`.
unfoldable pub utf8_length : List ℕ → ℕ
unfolding utf8_size
utf8_length [] = 0
utf8_length (c ∷ cs) = utf8_size c + utf8_length cs

-- `value.length`, which counts UTF-16 units.
unfoldable pub utf16_length : List ℕ → ℕ
utf16_length [] = 0
utf16_length (c ∷ cs) = (if leb 0x10000 c then 2 else 1) + utf16_length cs

abbrev push : ℕ → List (List ℕ) → List (List ℕ)
push c [] = (c ∷ []) ∷ []
push c (part ∷ parts) = (c ∷ part) ∷ parts

-- `value.split(p)` by a class of single characters.
unfoldable pub split_by : (ℕ → Bool) → List ℕ → List (List ℕ)
split_by p [] = [] ∷ []
split_by p (c ∷ cs) = let parts = split_by p cs in if p c then [] ∷ parts else push c parts
