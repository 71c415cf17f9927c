-- ===== src/Sanitize.antt =====
-- Rendering of text from a peer, sanitize.rs: control characters and invisible formatters become
-- `\xNN`, byte by byte.
pub mod Visible
use secret_manager.Base.{
  ℕ, ◌+◌, ◌-◌, ◌/◌, ◌%◌, Bool, ◌&&◌, ◌||◌, List, [], ◌∷◌, ◌++◌, ltb, leb, ◌==◌, if◌then◌else◌,
  Bytes, Text, bytes,
}
use secret_manager.Utf8.{encode_char, encode_chars, chars}

abbrev between : ℕ → ℕ → ℕ → Bool
between c lo hi = leb lo c && leb c hi

unfoldable pub is_invisible_format : ℕ → Bool
is_invisible_format c =
    (c == 0x00AD)
    || (between c 0x0600 0x0605)
    || (c == 0x061C)
    || (c == 0x06DD)
    || (c == 0x070F)
    || (c == 0x08E2)
    || (c == 0x180E)
    || (between c 0x200B 0x200F)
    || (between c 0x2028 0x202E)
    || (between c 0x2060 0x2064)
    || (between c 0x2066 0x206F)
    || (between c 0xE000 0xF8FF)
    || (c == 0xFEFF)
    || (between c 0xFFF9 0xFFFB)
    || (c == 0x110BD)
    || (c == 0x110CD)
    || (between c 0x1D173 0x1D17A)
    || (c == 0xE0001)
    || (between c 0xE0020 0xE007F)
    || (between c 0xF0000 0xFFFFD)
    || between c 0x100000 0x10FFFD

-- `char::is_control`: general category Cc.
unfoldable pub is_control : ℕ → Bool
is_control c = leb c 0x1F || between c 0x7F 0x9F

-- `{b:02x}`
abbrev pub hex_digit : ℕ → ℕ
hex_digit n = if ltb n 10 then b'0' + n else b'a' + (n - 10)

unfoldable pub escape_byte : ℕ → List ℕ
escape_byte b = bytes "\\x" ++ (hex_digit (b / 16) ∷ hex_digit (b % 16) ∷ [])

unfoldable pub escape_bytes : Bytes → List ℕ
unfolding escape_byte
escape_bytes [] = []
escape_bytes (b ∷ rest) = escape_byte b ++ escape_bytes rest

-- The characters that stand for one.
unfoldable pub escape_char : ℕ → List ℕ
unfolding is_invisible_format is_control escape_bytes encode_char
escape_char ch =
    if is_control ch || is_invisible_format ch then escape_bytes (encode_char ch) else ch ∷ []

unfoldable pub escape_chars : List ℕ → List ℕ
unfolding escape_char
escape_chars [] = []
escape_chars (ch ∷ rest) = escape_char ch ++ escape_chars rest

unfoldable pub escape_control : Text → Text
unfolding escape_chars
escape_control s = encode_chars (escape_chars (chars s))
