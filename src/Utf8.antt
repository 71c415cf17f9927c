-- ===== src/Utf8.antt =====
-- UTF-8, by which a `String`'s bytes stand for its characters (the standard library's `chars`,
-- `encode_utf8` and `is_char_boundary`).
use secret_manager.Base.{
  ℕ, zero, suc, ◌+◌, ◌-◌, ◌*◌, ◌/◌, ◌%◌, ◌<◌, ◌≡◌, refl, ap, ◌∙◌, Bool, false, not, ◌&&◌, ◌||◌,
  none, some, List, [], ◌∷◌, ◌++◌, arith, ltb, leb, ◌==◌, if◌then◌else◌, length, get_elem?, All,
  Bytes, Text,
}

-- `char::encode_utf8`
unfoldable pub encode_char : ℕ → Bytes
encode_char ch =
    if ltb ch 0x80
    then ch ∷ []
    else if ltb ch 0x800
    then (0xC0 + ch / 64) ∷ (0x80 + ch % 64) ∷ []
    else if ltb ch 0x10000
    then (0xE0 + ch / 4096) ∷ (0x80 + ch / 64 % 64) ∷ (0x80 + ch % 64) ∷ []
    else (0xF0 + ch / 262144)
      ∷ (0x80 + ch / 4096 % 64)
      ∷ (0x80 + ch / 64 % 64)
      ∷ (0x80 + ch % 64)
      ∷ []

unfoldable pub encode_chars : List ℕ → Text
unfolding encode_char
encode_chars [] = []
encode_chars (ch ∷ rest) = encode_char ch ++ encode_chars rest

-- How many continuation bytes follow a lead byte, and the bits that it carries.
abbrev tail_len : ℕ → ℕ
tail_len b = if ltb b 0xC0 then 0 else if ltb b 0xE0 then 1 else if ltb b 0xF0 then 2 else 3

abbrev lead_bits : ℕ → ℕ
lead_bits b =
    if ltb b 0x80
    then b
    else if ltb b 0xE0
    then b - 0xC0
    else if ltb b 0xF0
    then b - 0xE0
    else b - 0xF0

-- `str::chars` on valid UTF-8: `acc` holds the bits of a character with `need` bytes to come.
unfoldable pub chars_from : ℕ → ℕ → Text → List ℕ
chars_from acc need [] = []
chars_from acc zero (b ∷ rest) =
    let bits = lead_bits b in
    let one = chars_from bits (tail_len b) rest in
    if ltb b 0x80 then bits ∷ chars_from 0 0 rest else one
chars_from acc (suc zero) (b ∷ rest) = (acc * 64 + (b - 0x80)) ∷ chars_from 0 0 rest
chars_from acc (suc (suc n)) (b ∷ rest) = chars_from (acc * 64 + (b - 0x80)) (suc n) rest

unfoldable pub chars : Text → List ℕ
unfolding chars_from
chars t = chars_from 0 0 t

abbrev pub is_continuation : ℕ → Bool
is_continuation b = leb 0x80 b && ltb b 0xC0

-- `str::is_char_boundary`
unfoldable pub is_char_boundary : Text → ℕ → Bool
is_char_boundary t i =
    (i == length t) || elim (get_elem? t i) [ none ↦ false | some b ↦ not (is_continuation b) ]

-- A character, by its code point.
abbrev pub IsChar : ℕ → Type 0
IsChar ch = ch < 0x110000

encode_char-chars :
    (ch : ℕ) (rest : Text) → IsChar ch → chars (encode_char ch ++ rest) ≡ ch ∷ chars rest
unfolding chars encode_char
encode_char-chars ch rest h = ground arith

-- Reading back what was encoded gives the characters.
pub chars-encode_chars : (cs : List ℕ) → All IsChar cs → chars (encode_chars cs) ≡ cs
unfolding encode_chars
chars-encode_chars [] h = unfold chars in refl
chars-encode_chars (ch ∷ cs) h =
    encode_char-chars ch (encode_chars cs) h.0 ∙ ap (λ r. ch ∷ r) (chars-encode_chars cs h.1)
