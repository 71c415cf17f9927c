-- ===== src/Pinentry.antt =====
-- The Assuan dialogue with a pinentry program: src/prompt/pinentry.rs. Strings that are escaped are
-- lists of characters, lines are their UTF-8.
pub mod Escape
pub mod Spell
pub mod Dialog
use secret_manager.Base.{
  ℕ, zero, suc, ◌+◌, ◌-◌, ◌*◌, ◌/◌, ◌%◌, ◌^◌, ◌≤◌, ◌<◌, min, String, ◌≡◌, refl, sym, ap, ◌∙◌,
  fun_ext, ◌≢◌, ◌↔◌, ◌⊎◌, inl, inr, Bool, true, false, not, ◌&&◌, ◌||◌, Option, none, some, List,
  [], ◌∷◌, ◌++◌, map, append_assoc, append-nil, arith, ltb, leb, ◌==◌, if◌then◌else◌, ltb→lt,
  not-ltb→le, le→not-ltb, lt→ltb, ==_iff, tests, Bool-cases, Option-cases, length, is_empty,
  get_elem?, set, take, drop, all, any, All, length-append, append_inj, replicate, take-append,
  drop-append, take-take, drop-take, take-append-length, drop-append-length, take-append-drop,
  length-take, length-drop, length-set, Bytes, Text, bytes, text_eq, text_eq_iff, text_eq_refl,
  Result, ok, err, ◌>>=◌, ◌>>◌, ok_or, map_err, or_else, Result-cases,
}
use secret_manager.Base.Decimal.{is_digit, from_decimal}
use secret_manager.Utf8.{chars, encode_chars}
use secret_manager.Vault.Types.{IoError}
use secret_manager.Sanitize.{is_control}

pub data PinentryError : Type 0 where
  spawn : Text → IoError → PinentryError
  io : IoError → PinentryError
  protocol : Text → PinentryError
  assuan : ℕ → Text → PinentryError
  busy : PinentryError

pub record PinRequest : Type 0 where
  pub title : List ℕ
  pub description : List ℕ
  pub prompt : List ℕ
  pub error : Option (List ℕ)
  pub repeat : Bool

pub data PinOutcome : Type 0 where
  pin : Text → PinOutcome
  cancelled : PinOutcome

unfoldable pub is_cancel : ℕ → Bool
is_cancel code = (code % 2 ^ 16) == 99

-- `{:02X}`
abbrev pub upper_digit : ℕ → ℕ
upper_digit n = if ltb n 10 then b'0' + n else b'A' + (n - 10)

unfoldable pub escape_char : ℕ → List ℕ
escape_char c =
    if c == b'%'
    then bytes "%25"
    else if ltb c 0x20 || (c == 0x7F)
    then b'%' ∷ upper_digit (c / 16) ∷ upper_digit (c % 16) ∷ []
    else c ∷ []

unfoldable pub escape : List ℕ → List ℕ
unfolding escape_char
escape [] = []
escape (c ∷ cs) = escape_char c ++ escape cs

-- `char::to_digit(16)`
unfoldable pub hex_value : ℕ → Option ℕ
hex_value b =
    if is_digit b
    then some (b - b'0')
    else if leb b'A' b && leb b b'F'
    then some (b - b'A' + 10)
    else if leb b'a' b && leb b b'f'
    then some (b - b'a' + 10)
    else none

abbrev two_digits : Option ℕ → Option ℕ → Option ℕ
two_digits (some hi) (some lo) = some (hi * 16 + lo)
two_digits (some hi) none = none
two_digits none lo = none

-- `u8::from_str_radix` of two bytes: a sign is accepted in front of one digit.
unfoldable pub hex_byte : ℕ → ℕ → Option ℕ
unfolding hex_value
hex_byte h l = if h == b'+' then hex_value l else two_digits (hex_value h) (hex_value l)

abbrev is_scalar : ℕ → Bool
is_scalar c = ltb c 0xD800 || (leb 0xE000 c && ltb c 0x110000)

-- `str::from_utf8` succeeds on just what characters encode to.
unfoldable pub is_utf8 : Bytes → Bool
is_utf8 b = text_eq (encode_chars (chars b)) b && all is_scalar (chars b)

abbrev push_byte : ℕ → Result PinentryError Bytes → Result PinentryError Bytes
push_byte v (ok rest) = ok (v ∷ rest)
push_byte v (err e) = err e

abbrev push_escape : ℕ → ℕ → Option ℕ → Result PinentryError Bytes → Result PinentryError Bytes
push_escape h l none rest =
    if is_utf8 (h ∷ l ∷ [])
    then err (protocol (bytes "bad escape %" ++ (h ∷ l ∷ [])))
    else err (protocol (bytes "bad escape"))
push_escape h l (some v) rest = push_byte v rest

abbrev truncated : Result PinentryError Bytes
truncated = err (protocol (bytes "truncated escape"))

unfoldable pub unescape_bytes : Bytes → Result PinentryError Bytes
unfolding hex_byte is_utf8
unescape_bytes [] = ok []
unescape_bytes (b ∷ []) = if b == b'%' then truncated else ok (b ∷ [])
unescape_bytes (b ∷ c ∷ []) =
    let rest = unescape_bytes (c ∷ []) in if b == b'%' then truncated else push_byte b rest
unescape_bytes (b ∷ h ∷ l ∷ rest) =
    let plain = unescape_bytes (h ∷ l ∷ rest) in
    let after = unescape_bytes rest in
    if b == b'%' then push_escape h l (hex_byte h l) after else push_byte b plain

abbrev checked_utf8 : Bytes → Result PinentryError Text
checked_utf8 out = if is_utf8 out then ok out else err (protocol (bytes "pin is not utf-8"))

unfoldable pub unescape : Bytes → Result PinentryError Text
unfolding unescape_bytes is_utf8
unescape s = unescape_bytes s >>= checked_utf8
