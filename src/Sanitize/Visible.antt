-- ===== src/Sanitize/Visible.antt =====
-- Which characters `escape_control` of sanitize.rs leaves in a text.
use secret_manager.Base.{
  ℕ, zero, suc, ◌/◌, ◌%◌, ◌<◌, ◌≡◌, ◌⊎◌, refl, ap, Bool, true, false, not, ◌&&◌, ◌||◌, List, [],
  ◌∷◌, ◌++◌, arith, if◌then◌else◌, All, Bytes,
}
use secret_manager.Utf8.{encode_char, IsChar}
use secret_manager.Sanitize.{
  is_invisible_format, is_control, hex_digit, escape_bytes, escape_char, escape_chars,
}

-- Ranges of characters that are not to be printed as they are: the control characters, the line and
-- paragraph separators, marks that reorder or join the text around them, other formatters without a
-- glyph, and the private use areas.
abbrev pub hidden : List (ℕ × ℕ)
hidden =
    (0x00, 0x1F)
    ∷ (0x7F, 0x9F)
    ∷ (0xAD, 0xAD)
    ∷ (0x600, 0x605)
    ∷ (0x61C, 0x61C)
    ∷ (0x6DD, 0x6DD)
    ∷ (0x70F, 0x70F)
    ∷ (0x8E2, 0x8E2)
    ∷ (0x180E, 0x180E)
    ∷ (0x200B, 0x200F)
    ∷ (0x2028, 0x202E)
    ∷ (0x2060, 0x2064)
    ∷ (0x2066, 0x206F)
    ∷ (0xE000, 0xF8FF)
    ∷ (0xFEFF, 0xFEFF)
    ∷ (0xFFF9, 0xFFFB)
    ∷ (0x110BD, 0x110BD)
    ∷ (0x110CD, 0x110CD)
    ∷ (0x1D173, 0x1D17A)
    ∷ (0xE0001, 0xE0001)
    ∷ (0xE0020, 0xE007F)
    ∷ (0xF0000, 0xFFFFD)
    ∷ (0x100000, 0x10FFFD)
    ∷ []

-- In none of the ranges.
abbrev pub IsVisible : ℕ → Type 0
IsVisible ch = All (λ (r : ℕ × ℕ). (ch < r.0) ⊎ (r.1 < ch)) hidden

-- The test that the code branches on.
abbrev IsPlain : ℕ → Type 0
IsPlain ch = (is_control ch || is_invisible_format ch) ≡ false

plain-IsVisible : (ch : ℕ) → IsPlain ch → IsVisible ch
unfolding is_control is_invisible_format
plain-IsVisible ch h = ground arith

abbrev visible : ℕ → Bool
visible ch = not (is_control ch || is_invisible_format ch)

-- A test passes every number under the bound.
holds_under : (ℕ → Bool) → ℕ → Bool
holds_under test zero = true
holds_under test (suc bound) = holds_under test bound && test bound

holds_under_lem :
    (test : ℕ → Bool) (bound ch : ℕ) → ch < bound → holds_under test bound ≡ true → test ch ≡ true
unfolding holds_under
holds_under_lem test zero ch small h = absurd (omega arith)
holds_under_lem test (suc bound) ch small h = ground (arith, holds_under_lem test bound ch)

hex_digits_visible : holds_under (λ n. visible (hex_digit n)) 16 ≡ true
unfolding holds_under is_control is_invisible_format
hex_digits_visible = refl

hex_digit-IsPlain : (n : ℕ) → n < 16 → IsPlain (hex_digit n)
hex_digit-IsPlain n h =
    let t = holds_under_lem (λ n. visible (hex_digit n)) 16 n h hex_digits_visible in ground arith

All-append {ℓ} :
    {A : Type ℓ} (P : A → Type ℓ) (xs ys : List A) → All P xs → All P ys → All P (xs ++ ys)
All-append P [] ys h k = k
All-append P (x ∷ xs) ys h k = (h.0, All-append P xs ys h.1 k)

escape_bytes-IsPlain : (b : Bytes) → All (λ x. x < 256) b → All IsPlain (escape_bytes b)
unfolding escape_bytes
escape_bytes-IsPlain [] h = tt
escape_bytes-IsPlain (b ∷ rest) h = (
  unfold is_control is_invisible_format in refl,
  (
    unfold is_control is_invisible_format in refl,
    (
      hex_digit-IsPlain (b / 16) (omega arith),
      (hex_digit-IsPlain (b % 16) (omega arith), escape_bytes-IsPlain rest h.1),
    ),
  ),
)

encode_char-bytes : (ch : ℕ) → IsChar ch → All (λ x. x < 256) (encode_char ch)
unfolding encode_char
encode_char-bytes ch h = ground arith

picked-IsPlain :
    (b : Bool) (ch : ℕ)
    → IsChar ch
    → (b ≡ false → IsPlain ch)
    → All IsPlain (if b then escape_bytes (encode_char ch) else ch ∷ [])
picked-IsPlain true ch h k = escape_bytes-IsPlain (encode_char ch) (encode_char-bytes ch h)
picked-IsPlain false ch h k = (k refl, tt)

escape_char-IsPlain : (ch : ℕ) → IsChar ch → All IsPlain (escape_char ch)
unfolding escape_char
escape_char-IsPlain ch h = picked-IsPlain _ ch h (λ e. e)

escape_chars-IsPlain : (cs : List ℕ) → All IsChar cs → All IsPlain (escape_chars cs)
unfolding escape_chars
escape_chars-IsPlain [] h = tt
escape_chars-IsPlain (ch ∷ cs) h =
    All-append IsPlain (escape_char ch) (escape_chars cs) (escape_char-IsPlain ch h.0)
      (escape_chars-IsPlain cs h.1)

escape_char_plain : (ch : ℕ) → IsPlain ch → escape_char ch ≡ ch ∷ []
unfolding escape_char
escape_char_plain ch h = ap (λ (b : Bool). if b then escape_bytes (encode_char ch) else ch ∷ []) h

escape_chars_plain : (cs : List ℕ) → All IsPlain cs → escape_chars cs ≡ cs
unfolding escape_chars
escape_chars_plain [] h = refl
escape_chars_plain (ch ∷ cs) h = rw (escape_char_plain ch h.0, escape_chars_plain cs h.1) refl

plain_text-IsVisible : (cs : List ℕ) → All IsPlain cs → All IsVisible cs
plain_text-IsVisible [] h = tt
plain_text-IsVisible (ch ∷ cs) h = (plain-IsVisible ch h.0, plain_text-IsVisible cs h.1)

-- Whatever the text, no character of it once escaped is a control character, a line or paragraph
-- separator or another character in the ranges of `hidden`, and escaping it once more changes nothing.
pub escape_chars-IsVisible :
    (cs : List ℕ)
    → All IsChar cs
    → All IsVisible (escape_chars cs) × (escape_chars (escape_chars cs) ≡ escape_chars cs)
escape_chars-IsVisible cs h =
    let plain = escape_chars-IsPlain cs h in
    (plain_text-IsVisible (escape_chars cs) plain, escape_chars_plain (escape_chars cs) plain)
