-- ===== src/Vault/Format.antt =====
-- The layout of a vault file, vault/format.rs: magic, length prefix, header, ciphertext.
pub mod RoundTrip
pub mod Prefix
use secret_manager.Base.{
  ℕ, ◌+◌, ◌-◌, ◌*◌, ◌%◌, ◌^◌, not, List, [], ◌∷◌, ◌++◌, ltb, ◌==◌, if◌then◌else◌, length, is_empty,
  take, drop, Bytes, bytes, text_eq, Result, ok, err, ok_or, map_err, ◌>>=◌, ◌>>◌,
}
use secret_manager.Vault.Types.{Header, Item, FormatError}
use secret_manager.Vault.Crates.{Crates}
use secret_manager.Vault.Kdf.{validate}
use secret_manager.Vault.Index.{to_le_bytes}

abbrev pub magic : Bytes
magic = bytes "SMVAULT" ++ 0 ∷ []

abbrev pub version : ℕ
version = 3

abbrev pub max_header : ℕ
max_header = 16 * 2 ^ 20

abbrev pub max_label : ℕ
max_label = 4 * 2 ^ 10

abbrev pub prefix_len : ℕ
prefix_len = 12

abbrev pub max_vault_bytes : ℕ
max_vault_bytes = 256 * 2 ^ 20

unfoldable pub check_vault_size_against : ℕ → ℕ → Result FormatError (Unit {0})
check_vault_size_against len limit =
    if ltb limit len then err (FormatError.vault_too_large len) else ok tt

unfoldable pub check_vault_size : ℕ → Result FormatError (Unit {0})
unfolding check_vault_size_against
check_vault_size len = check_vault_size_against len max_vault_bytes

-- `u32::from_le_bytes` of the four bytes at the head of the list.
unfoldable pub from_le_bytes : Bytes → ℕ
from_le_bytes (a ∷ b ∷ c ∷ d ∷ rest) = a + 256 * b + 65536 * c + 16777216 * d
from_le_bytes _ = 0

unfoldable pub header_prefix_len : Bytes → Result FormatError ℕ
header_prefix_len prefix =
    let len = from_le_bytes (drop 8 prefix) in
    if ltb (length prefix) 8
    then err FormatError.truncated
    else if not (text_eq (take 8 prefix) magic)
    then err FormatError.bad_magic
    else if ltb (length prefix) prefix_len
    then err FormatError.truncated
    else if ltb max_header len
    then err FormatError.truncated
    else ok (prefix_len + len)

unfoldable pub check_header : Header → Result FormatError (Unit {0})
check_header h =
    if not (h.version == version)
    then err (FormatError.unsupported_version h.version)
    else map_err FormatError.unsafe_kdf (validate h.kdf)

-- `bytes[PREFIX_LEN..need]`.
abbrev pub header_body : Bytes → ℕ → Bytes
header_body input need = take (need - prefix_len) (drop prefix_len input)

unfoldable pub read_header : Crates → Bytes → ℕ → Result FormatError (Header × ℕ)
read_header c input need = do
  (h, rest) ← ok_or (c.header_from_bytes (header_body input need)) FormatError.encoding
  if not (is_empty rest)
      then err (FormatError.trailing_header_bytes (length rest))
      else do check_header h; ok (h, need)

unfoldable pub decode_header_prefix : Crates → Bytes → Result FormatError (Header × ℕ)
unfolding read_header
decode_header_prefix c input = do
  need ← header_prefix_len input
  if ltb (length input) need then err FormatError.truncated else read_header c input need

unfoldable pub decode_header : Crates → Bytes → Result FormatError Header
decode_header c input = do (h, need) ← decode_header_prefix c input; ok h

pub record VaultFile : Type 0 where
  pub header : Header
  pub aad : Bytes
  pub ciphertext : Bytes

unfoldable pub header_bytes : Crates → Header → Result FormatError Bytes
header_bytes c h = do
  body ← ok_or (c.header_to_vec h) FormatError.encoding
  if ltb max_header (length body)
      then err (FormatError.header_too_large (length body))
      else ok (magic ++ (to_le_bytes (length body % 2 ^ 32) ++ body))

unfoldable pub new_file : Crates → Header → Bytes → Result FormatError VaultFile
new_file c header ciphertext = do
  aad ← header_bytes c header
  ok (record { header = header; aad = aad; ciphertext = ciphertext })

unfoldable pub encode : VaultFile → Bytes
encode f = f.aad ++ f.ciphertext

unfoldable pub decode : Crates → Bytes → Result FormatError VaultFile
decode c input = do
  (header, need) ← decode_header_prefix c input
  ok (record { header = header; aad = take need input; ciphertext = drop need input })

unfoldable pub encode_items : Crates → List Item → Result FormatError Bytes
encode_items c items = ok_or (c.items_to_vec items) FormatError.encoding

unfoldable pub decode_items : Crates → Bytes → Result FormatError (List Item)
decode_items c input = ok_or (c.items_from_bytes input) FormatError.encoding
