-- ===== src/Vault/Format/RoundTrip.antt =====
-- Writing a vault file and reading it back, vault/format.rs.
use secret_manager.Base.{
  ℕ, ◌+◌, ◌%◌, ◌^◌, ◌≤◌, ◌<◌, ◌≡◌, refl, ap, inl, inr, some, [], ◌++◌, append-nil, arith,
  le→not-ltb, Option-cases, length, length-append, take-append, take-append-length,
  drop-append-length, Bytes, text_eq, ok, Result-cases,
}
use secret_manager.Vault.Types.{Header}
use secret_manager.Vault.Crates.{Crates, CratesLaws}
use secret_manager.Vault.Index.{to_le_bytes}
use secret_manager.Vault.Format.{
  magic, max_header, prefix_len, from_le_bytes, header_prefix_len, check_header, header_body,
  read_header, decode_header_prefix, VaultFile, header_bytes, new_file, encode, decode,
}

from-to_le_bytes : (n : ℕ) (rest : Bytes) → n < 2 ^ 32 → from_le_bytes (to_le_bytes n ++ rest) ≡ n
unfolding from_le_bytes to_le_bytes
from-to_le_bytes n rest h = omega arith

abbrev prefixed : Bytes → Bytes → Bytes
prefixed body rest = magic ++ (to_le_bytes (length body % 2 ^ 32) ++ (body ++ rest))

-- What `header_bytes` writes has the length that `header_prefix_len` reads off it.
prefix_len_lem :
    (body rest : Bytes)
    → length body ≤ max_header
    → header_prefix_len (prefixed body rest) ≡ ok (prefix_len + length body)
unfolding header_prefix_len text_eq to_le_bytes from_le_bytes
prefix_len_lem body rest h = ground arith

header_bytes_inv :
    (c : Crates) (h : Header) (aad : Bytes)
    → header_bytes c h ≡ ok aad
    → (body : Bytes) × (c.header_to_vec h ≡ some body)
      × (length body ≤ max_header)
      × (aad ≡ prefixed body [])
unfolding header_bytes
header_bytes_inv c h aad e = elim (Option-cases (c.header_to_vec h)) [
  | inl n ↦ cc (rw n at e)
  | inr (body, s) ↦ (body, s, ground (arith, s), ground (arith, s, append-nil body))
]

prefixed-append : (body rest : Bytes) → prefixed body [] ++ rest ≡ prefixed body rest
unfolding to_le_bytes
prefixed-append body rest = rw (append-nil body) refl

length-prefixed : (body rest : Bytes) → length (prefixed body rest) ≡ 12 + length body + length rest
unfolding to_le_bytes
length-prefixed body rest = omega (arith, length-append body rest)

header_body_lem :
    (body rest : Bytes) → header_body (prefixed body rest) (prefix_len + length body) ≡ body
unfolding to_le_bytes
header_body_lem body rest = take-append _ body rest (omega arith)

header_from_body :
    (c : Crates) (laws : CratesLaws c) (h : Header) (body : Bytes)
    → c.header_to_vec h ≡ some body
    → c.header_from_bytes body ≡ some (h, [])
header_from_body c laws h body s = rw (append-nil body) at (laws.header_from-to h body [] s)

read_header_lem :
    (c : Crates) (laws : CratesLaws c) (h : Header) (body input : Bytes) (need : ℕ)
    → c.header_to_vec h ≡ some body
    → header_body input need ≡ body
    → check_header h ≡ ok tt
    → read_header c input need ≡ ok (h, need)
unfolding read_header
read_header_lem c laws h body input need s b safe =
    rw (b, header_from_body c laws h body s, safe) refl

decode_prefix-prefixed :
    (c : Crates) (laws : CratesLaws c) (h : Header) (body rest : Bytes)
    → c.header_to_vec h ≡ some body
    → length body ≤ max_header
    → check_header h ≡ ok tt
    → decode_header_prefix c (prefixed body rest) ≡ ok (h, prefix_len + length body)
unfolding decode_header_prefix
decode_prefix-prefixed c laws h body rest s small safe = rw (prefix_len_lem body rest small) (
    rw
      (le→not-ltb (length (prefixed body rest)) (prefix_len + length body)
        (omega (arith, length-prefixed body rest)))
      (read_header_lem c laws h body (prefixed body rest) (prefix_len + length body) s
        (header_body_lem body rest) safe))

-- The reader of the prefix and the body accepts what `header_bytes` wrote, whatever follows it.
pub decode_prefix-header_bytes :
    (c : Crates) (laws : CratesLaws c) (h : Header) (aad rest : Bytes)
    → header_bytes c h ≡ ok aad
    → check_header h ≡ ok tt
    → decode_header_prefix c (aad ++ rest) ≡ ok (h, length aad)
decode_prefix-header_bytes c laws h aad rest e safe =
    let (body, s, small, shape) = header_bytes_inv c h aad e in
    let len : length aad ≡ prefix_len + length body =
      omega (arith, ap length shape, length-prefixed body []) in
    rw (len, shape, prefixed-append body rest)
      (decode_prefix-prefixed c laws h body rest s small safe)

-- A header and a ciphertext that are written one after the other are read back as those two.
pub decode-append :
    (c : Crates) (laws : CratesLaws c) (h : Header) (aad ciphertext : Bytes)
    → header_bytes c h ≡ ok aad
    → check_header h ≡ ok tt
    → decode c (aad ++ ciphertext) ≡ ok (record { header = h; aad = aad; ciphertext = ciphertext })
unfolding decode
decode-append c laws h aad ciphertext e safe = simp (
  decode_prefix-header_bytes c laws h aad ciphertext e safe,
  take-append-length,
  drop-append-length,
)

-- A vault file written with a current version and safe parameters decodes to itself.
pub decode-encode :
    (c : Crates) (laws : CratesLaws c) (h : Header) (ciphertext : Bytes) (f : VaultFile)
    → new_file c h ciphertext ≡ ok f
    → check_header h ≡ ok tt
    → decode c (encode f) ≡ ok f
unfolding new_file encode
decode-encode c laws h ciphertext f e safe = elim (Result-cases (header_bytes c h)) [
  | inl (aad, w) ↦ ground (arith, w, decode-append c laws h aad ciphertext w safe)
  | inr (x, w) ↦ cc (rw w at e)
]
