-- ===== src/Pinentry/Escape.antt =====
-- Escaping and unescaping of the texts on Assuan lines (src/prompt/pinentry.rs).
use secret_manager.Base.{
  ℕ, ◌+◌, ◌*◌, ◌/◌, ◌%◌, ◌<◌, ◌≡◌, refl, sym, ap, ◌∙◌, Bool, true, false, not, ◌&&◌, ◌||◌, some,
  List, [], ◌∷◌, ◌++◌, append_assoc, append-nil, arith, ltb, leb, ◌==◌, if◌then◌else◌, lt→ltb,
  ==_iff, all, All, Bytes, bytes, text_eq_refl, ok,
}
use mathlib.Core.Path.{subst}
use secret_manager.Utf8.{encode_char, encode_chars, IsChar, chars-encode_chars}
use secret_manager.Pinentry.{
  upper_digit, escape_char, escape, hex_value, hex_byte, is_scalar, is_utf8, push_byte,
  unescape_bytes, unescape,
}

abbrev pub IsScalar : ℕ → Type 0
IsScalar c = is_scalar c ≡ true

-- A byte that can stand on an Assuan line.
abbrev pub is_line_byte : ℕ → Bool
is_line_byte b = leb 0x20 b && not (b == 0x7F)

line_char : (c : ℕ) → all is_line_byte (encode_chars (escape_char c)) ≡ true
unfolding escape_char encode_chars encode_char
line_char c = ground arith

digit_back : (n : ℕ) → n < 16 → hex_value (upper_digit n) ≡ some n
unfolding hex_value
digit_back n h = ground arith

digit-ne : (n : ℕ) → n < 16 → (upper_digit n == b'+') ≡ false
digit-ne n h = ground arith

hex_byte-digits :
    (c : ℕ) → c < 256 → hex_byte (upper_digit (c / 16)) (upper_digit (c % 16)) ≡ some c
unfolding hex_byte
hex_byte-digits c h =
    rw
      (
        digit-ne (c / 16) (omega arith),
        digit_back (c / 16) (omega arith),
        digit_back (c % 16) (omega arith),
      )
      (let e : c / 16 * 16 + c % 16 ≡ c = omega arith in ap some e)

encode_chars-append :
    (xs ys : List ℕ) → encode_chars (xs ++ ys) ≡ encode_chars xs ++ encode_chars ys
unfolding encode_chars
encode_chars-append [] ys = refl
encode_chars-append (x ∷ xs) ys =
    ap (λ r. encode_char x ++ r) (encode_chars-append xs ys)
    ∙ sym (append_assoc (encode_char x) (encode_chars xs) (encode_chars ys))

unescape_bytes-plain :
    (b : ℕ) (rest r : Bytes)
    → (b == b'%') ≡ false
    → unescape_bytes rest ≡ ok r
    → unescape_bytes (b ∷ rest) ≡ ok (b ∷ r)
unfolding unescape_bytes
unescape_bytes-plain b [] r e h = rw e (ap (push_byte b) h)
unescape_bytes-plain b (c ∷ []) r e h = rw e (ap (push_byte b) h)
unescape_bytes-plain b (c ∷ d ∷ rest) r e h = rw e (ap (push_byte b) h)

pub unescape_bytes-all_plain :
    (bs rest r : Bytes)
    → all (λ b. not (b == b'%')) bs ≡ true
    → unescape_bytes rest ≡ ok r
    → unescape_bytes (bs ++ rest) ≡ ok (bs ++ r)
unescape_bytes-all_plain [] rest r p h = h
unescape_bytes-all_plain (b ∷ bs) rest r p h =
    unescape_bytes-plain b (bs ++ rest) (bs ++ r) (ground arith)
      (unescape_bytes-all_plain bs rest r (ground arith) h)

pub unescape_bytes-escape :
    (h l v : ℕ) (rest r : Bytes)
    → hex_byte h l ≡ some v
    → unescape_bytes rest ≡ ok r
    → unescape_bytes (b'%' ∷ h ∷ l ∷ rest) ≡ ok (v ∷ r)
unfolding unescape_bytes
unescape_bytes-escape h l v rest r x e = rw (x, e) refl

encode_char-ascii : (c : ℕ) → c < 0x80 → encode_char c ≡ c ∷ []
unfolding encode_char
encode_char-ascii c h = rw (lt→ltb c 0x80 h) refl

pub encode_char-plain :
    (c : ℕ) → (c == b'%') ≡ false → all (λ b. not (b == b'%')) (encode_char c) ≡ true
unfolding encode_char
encode_char-plain c h = ground arith

three_ascii :
    (a b c : ℕ) → a < 0x80 → b < 0x80 → c < 0x80 → encode_chars (a ∷ b ∷ c ∷ []) ≡ a ∷ b ∷ c ∷ []
unfolding encode_chars
three_ascii a b c ha hb hc =
    rw (encode_char-ascii a ha, encode_char-ascii b hb, encode_char-ascii c hc) refl

upper_digit-lt : (n : ℕ) → n < 16 → upper_digit n < 0x80
upper_digit-lt n h = ground arith

encode_chars-single : (c : ℕ) → encode_chars (c ∷ []) ≡ encode_char c
unfolding encode_chars
encode_chars-single c = append-nil (encode_char c)

-- One escaped character in front of what is already undone.
unescape_bytes-char :
    (c : ℕ) (rest r : Bytes)
    → unescape_bytes rest ≡ ok r
    → unescape_bytes (encode_chars (escape_char c) ++ rest) ≡ ok (encode_char c ++ r)
unfolding escape_char
unescape_bytes-char c rest r h = by_case (c == b'%') (ltb c 0x20 || (c == 0x7F)) refl refl
  where
    coded :
        c < 128
        → unescape_bytes
            (encode_chars (b'%' ∷ upper_digit (c / 16) ∷ upper_digit (c % 16) ∷ []) ++ rest)
          ≡ ok (encode_char c ++ r)
    coded small =
        rw
          (
            three_ascii b'%' (upper_digit (c / 16)) (upper_digit (c % 16)) (omega arith)
                (upper_digit-lt (c / 16) (omega arith)) (upper_digit-lt (c % 16) (omega arith)),
            encode_char-ascii c small,
          )
          (unescape_bytes-escape (upper_digit (c / 16)) (upper_digit (c % 16)) c rest r
            (hex_byte-digits c (omega arith)) h)

    by_case :
        (percent control : Bool)
        → (c == b'%') ≡ percent
        → (ltb c 0x20 || (c == 0x7F)) ≡ control
        → unescape_bytes (
            encode_chars (
              if percent
              then bytes "%25"
              else if control
              then b'%' ∷ upper_digit (c / 16) ∷ upper_digit (c % 16) ∷ []
              else c ∷ [])
            ++ rest)
          ≡ ok (encode_char c ++ r)
    by_case true control e f =
        let is : c ≡ 37 = (==_iff c 37).0 e in
        let digits : upper_digit (c / 16) ∷ upper_digit (c % 16) ∷ [] ≡ 50 ∷ 53 ∷ [] =
          ap (λ x. upper_digit (x / 16) ∷ upper_digit (x % 16) ∷ []) is in
        subst (λ l. unescape_bytes (encode_chars (b'%' ∷ l) ++ rest) ≡ ok (encode_char c ++ r))
          digits (coded (omega arith))
    by_case false true e f = coded (ground arith)
    by_case false false e f =
        subst (λ l. unescape_bytes (l ++ rest) ≡ ok (encode_char c ++ r))
          (sym (encode_chars-single c))
          (unescape_bytes-all_plain (encode_char c) rest r (encode_char-plain c e) h)

unescape_bytes-escape_all :
    (cs : List ℕ) → unescape_bytes (encode_chars (escape cs)) ≡ ok (encode_chars cs)
unfolding escape encode_chars unescape_bytes
unescape_bytes-escape_all [] = refl
unescape_bytes-escape_all (c ∷ cs) =
    ap unescape_bytes (encode_chars-append (escape_char c) (escape cs))
    ∙ unescape_bytes-char c (encode_chars (escape cs)) (encode_chars cs)
        (unescape_bytes-escape_all cs)

scalars-IsChar : (cs : List ℕ) → All IsScalar cs → All IsChar cs
scalars-IsChar [] h = h
scalars-IsChar (c ∷ cs) h = let small = h.0 in (ground arith, scalars-IsChar cs h.1)

all-IsScalar : (cs : List ℕ) → All IsScalar cs → all is_scalar cs ≡ true
all-IsScalar [] h = refl
all-IsScalar (c ∷ cs) h = rw (h.0, all-IsScalar cs h.1) refl

pub is_utf8-encode_chars : (cs : List ℕ) → All IsScalar cs → is_utf8 (encode_chars cs) ≡ true
unfolding is_utf8
is_utf8-encode_chars cs h =
    rw
      (
        chars-encode_chars cs (scalars-IsChar cs h),
        text_eq_refl (encode_chars cs),
        all-IsScalar cs h,
      )
      refl

-- Whatever characters are escaped, unescaping gives back their UTF-8.
unescape-escape :
    (cs : List ℕ) → All IsScalar cs → unescape (encode_chars (escape cs)) ≡ ok (encode_chars cs)
unfolding unescape
unescape-escape cs h = rw (unescape_bytes-escape_all cs, is_utf8-encode_chars cs h) refl

-- An escaped text has no byte below 0x20 and no 0x7F, so no line break.
pub escape-line : (cs : List ℕ) → all is_line_byte (encode_chars (escape cs)) ≡ true
unfolding escape encode_chars
escape-line [] = refl
escape-line (c ∷ cs) =
    ap (all is_line_byte) (encode_chars-append (escape_char c) (escape cs))
    ∙ all-append (encode_chars (escape_char c)) (encode_chars (escape cs)) (line_char c)
        (escape-line cs)
  where
    all-append :
        (xs ys : Bytes)
        → all is_line_byte xs ≡ true
        → all is_line_byte ys ≡ true
        → all is_line_byte (xs ++ ys) ≡ true
    all-append [] ys h k = k
    all-append (x ∷ xs) ys h k = ground (arith, all-append xs ys)
