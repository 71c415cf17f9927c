-- ===== src/Pinentry/Spell.antt =====
-- How a pinentry may write the bytes of a pin on its data lines, and reading them
-- (src/prompt/pinentry.rs).
use secret_manager.Base.{
  ℕ, ◌+◌, ◌-◌, ◌*◌, ◌<◌, ◌≡◌, refl, ◌≢◌, Bool, true, false, not, ◌||◌, some, List, [], ◌∷◌, ◌++◌,
  arith, ltb, ◌==◌, if◌then◌else◌, all, All, Bytes, ok,
}
use secret_manager.Utf8.{encode_char, encode_chars}
use secret_manager.Pinentry.{hex_value, hex_byte, unescape_bytes, unescape}
use secret_manager.Pinentry.Escape.{
  IsScalar, encode_char-plain, unescape_bytes-all_plain, unescape_bytes-escape,
  is_utf8-encode_chars,
}

-- A hexadecimal digit, of either case.
pub record Digit : Type 0 where
  pub capital : Bool
  pub value : ℕ

abbrev pub digit_byte : Digit → ℕ
digit_byte d =
    if ltb d.value 10 then b'0' + d.value else (if d.capital then b'A' else b'a') + (d.value - 10)

-- A character as it is, or one byte as a percent sign and two digits.
pub data Mark : Type 0 where
  plain : ℕ → Mark
  coded : Digit → Digit → Mark

unfoldable pub spell : List Mark → Bytes
spell [] = []
spell (plain ch ∷ marks) = encode_char ch ++ spell marks
spell (coded h l ∷ marks) = b'%' ∷ digit_byte h ∷ digit_byte l ∷ spell marks

-- The bytes that the marks stand for.
unfoldable pub meaning : List Mark → Bytes
meaning [] = []
meaning (plain ch ∷ marks) = encode_char ch ++ meaning marks
meaning (coded h l ∷ marks) = (h.value * 16 + l.value) ∷ meaning marks

-- A percent sign and a line break are never written as they are.
abbrev pub IsMark : Mark → Type 0
IsMark (plain ch) = IsScalar ch × (ch ≢ b'%') × (ch ≢ 10) × (ch ≢ 13)
IsMark (coded h l) = (h.value < 16) × (l.value < 16)

digit_value : (d : Digit) → d.value < 16 → hex_value (digit_byte d) ≡ some d.value
unfolding hex_value
digit_value d h = ground arith

digit-ne_plus : (d : Digit) → d.value < 16 → (digit_byte d == b'+') ≡ false
digit-ne_plus d h = ground arith

hex_byte-digit_byte :
    (h l : Digit)
    → h.value < 16
    → l.value < 16
    → hex_byte (digit_byte h) (digit_byte l) ≡ some (h.value * 16 + l.value)
unfolding hex_byte
hex_byte-digit_byte h l a b = rw (digit-ne_plus h a, digit_value h a, digit_value l b) refl

unescape_bytes-spell :
    (marks : List Mark) → All IsMark marks → unescape_bytes (spell marks) ≡ ok (meaning marks)
unfolding spell meaning
unescape_bytes-spell [] h = unfold unescape_bytes in refl
unescape_bytes-spell (plain ch ∷ marks) h =
    unescape_bytes-all_plain (encode_char ch) (spell marks) (meaning marks)
      (encode_char-plain ch (ground (arith, h.0.1))) (unescape_bytes-spell marks h.1)
unescape_bytes-spell (coded a b ∷ marks) h =
    unescape_bytes-escape (digit_byte a) (digit_byte b) (a.value * 16 + b.value) (spell marks)
      (meaning marks) (hex_byte-digit_byte a b h.0.0 h.0.1) (unescape_bytes-spell marks h.1)

-- Marks that stand for whole characters are read as these.
pub unescape-spell :
    (marks : List Mark) (cs : List ℕ)
    → All IsMark marks
    → All IsScalar cs
    → meaning marks ≡ encode_chars cs
    → unescape (spell marks) ≡ ok (encode_chars cs)
unfolding unescape
unescape-spell marks cs h k e = rw (unescape_bytes-spell marks h, e, is_utf8-encode_chars cs k) refl

-- A byte that does not end a line.
abbrev pub stays : ℕ → Bool
stays b = not ((b == 10) || (b == 13))

all-append :
    (p : ℕ → Bool) (xs ys : Bytes) → all p xs ≡ true → all p ys ≡ true → all p (xs ++ ys) ≡ true
all-append p [] ys h k = k
all-append p (x ∷ xs) ys h k = ground (arith, all-append p xs ys)

encode_char-stays : (ch : ℕ) → ch ≢ 10 → ch ≢ 13 → all stays (encode_char ch) ≡ true
unfolding encode_char
encode_char-stays ch h k = ground arith

pub spell-stays : (marks : List Mark) → All IsMark marks → all stays (spell marks) ≡ true
unfolding spell
spell-stays [] h = refl
spell-stays (plain ch ∷ marks) h =
    all-append stays (encode_char ch) (spell marks) (encode_char-stays ch h.0.2 h.0.3)
      (spell-stays marks h.1)
spell-stays (coded a b ∷ marks) h =
    let rest = spell-stays marks h.1 in let small = h.0 in ground arith
