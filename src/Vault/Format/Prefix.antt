-- ===== src/Vault/Format/Prefix.antt =====
-- What the reader of a vault file accepts, and how much of the file it looks at (vault/format.rs).
use secret_manager.Base.{
  ℕ, suc, ◌+◌, ◌-◌, ◌≤◌, ◌≡◌, refl, ◌∙◌, inl, inr, some, [], ◌∷◌, arith, le→not-ltb, length, take,
  drop, take-take, drop-take, take-append-drop, length-take, Bytes, text_eq_iff, ok, Result-cases,
}
use secret_manager.Vault.Types.{Header}
use secret_manager.Vault.Crates.{Crates}
use secret_manager.Vault.Kdf.Bounds.{IsSafe, validate-ok_iff}
use secret_manager.Vault.Format.{
  magic, max_header, version, prefix_len, from_le_bytes, header_prefix_len, check_header,
  read_header, header_body, decode_header_prefix, decode_header, VaultFile, encode, decode,
}

-- A prefix that is accepted is at least twelve bytes, begins with the magic and declares a header
-- within the limit; the result is those twelve bytes and the declared length.
pub header_prefix_len_bounds :
    (prefix : Bytes) (need : ℕ)
    → header_prefix_len prefix ≡ ok need
    → (prefix_len ≤ length prefix)
      × (need ≤ prefix_len + max_header)
      × (take 8 prefix ≡ magic)
      × (need ≡ prefix_len + from_le_bytes (drop 8 prefix))
unfolding header_prefix_len
header_prefix_len_bounds prefix need h = ground (arith, text_eq_iff (take 8 prefix) magic)

check_header_inv : (h : Header) → check_header h ≡ ok tt → (h.version ≡ version) × IsSafe h.kdf
unfolding check_header
check_header_inv h e = ground (arith, validate-ok_iff h.kdf)

read_header_inv :
    (c : Crates) (input : Bytes) (need : ℕ) (r : Header × ℕ)
    → read_header c input need ≡ ok r
    → (check_header r.0 ≡ ok tt)
      × (r.1 ≡ need)
      × (c.header_from_bytes (header_body input need) ≡ some (r.0, []))
unfolding read_header
read_header_inv c input need r e = ground arith

prefix_inv :
    (c : Crates) (input : Bytes) (r : Header × ℕ)
    → decode_header_prefix c input ≡ ok r
    → (need : ℕ) × (header_prefix_len input ≡ ok need)
      × (need ≤ length input)
      × (read_header c input need ≡ ok r)
unfolding decode_header_prefix
prefix_inv c input r e = elim (Result-cases (header_prefix_len input)) [
  | inl (need, w) ↦ (need, w, ground (arith, w), ground (arith, w))
  | inr (x, w) ↦ cc (rw w at e)
]

-- A file that decodes has a header that passed the version and parameter checks, and encoding it
-- again gives back exactly the bytes that were read.
pub encode-decode :
    (c : Crates) (input : Bytes) (f : VaultFile)
    → decode c input ≡ ok f
    → (encode f ≡ input) × (f.header.version ≡ version) × IsSafe f.header.kdf
unfolding decode encode
encode-decode c input f e = elim (Result-cases (decode_header_prefix c input)) [
  | inl ((h, need), w) ↦
      let (n, len, small, body) = prefix_inv c input (h, need) w in
      let inv = read_header_inv c input n (h, need) body in
      ground (arith, w, check_header_inv h inv.0, take-append-drop need input)
  | inr (x, w) ↦ cc (rw w at e)
]

from_le_bytes-take-suc :
    (n : ℕ) (xs : Bytes) → from_le_bytes (take (suc (suc (suc (suc n)))) xs) ≡ from_le_bytes xs
unfolding from_le_bytes
from_le_bytes-take-suc n (x ∷ y ∷ z ∷ w ∷ rest) = refl
from_le_bytes-take-suc n xs = refl

from_le_bytes-take : (n : ℕ) (xs : Bytes) → 4 ≤ n → from_le_bytes (take n xs) ≡ from_le_bytes xs
from_le_bytes-take n xs h =
    let e : n ≡ suc (suc (suc (suc (n - 4)))) = omega arith in
    rw e (from_le_bytes-take-suc (n - 4) xs)

header_prefix_len-take :
    (input : Bytes) (need : ℕ)
    → prefix_len ≤ need
    → need ≤ length input
    → header_prefix_len (take need input) ≡ header_prefix_len input
unfolding header_prefix_len
header_prefix_len-take input need low high = ground (
  arith,
  length-take need input,
  take-take 8 need input (omega arith),
  drop-take 8 need input,
  from_le_bytes-take (need - 8) (drop 8 input) (omega arith),
)

header_body-take :
    (input : Bytes) (need : ℕ) → header_body (take need input) need ≡ header_body input need
header_body-take input need =
    rw (drop-take prefix_len need input)
      (take-take (need - prefix_len) (need - prefix_len) (drop prefix_len input) (omega arith))

-- The header depends only on the bytes that the prefix declares: a caller that has that many bytes
-- or more may cut the rest off.
pub decode_header-take :
    (c : Crates) (input : Bytes) (need : ℕ)
    → header_prefix_len input ≡ ok need
    → need ≤ length input
    → decode_header c (take need input) ≡ decode_header c input
unfolding decode_header decode_header_prefix read_header
decode_header-take c input need e h =
    let low = header_prefix_len_bounds input need e in
    let same : header_prefix_len (take need input) ≡ ok need =
      header_prefix_len-take input need (omega arith) h ∙ e in
    let len : length (take need input) ≡ need = omega (arith, length-take need input) in
    rw (same, e)
      (rw
        (le→not-ltb (length (take need input)) need (omega arith), le→not-ltb (length input) need h)
        (rw (header_body-take input need) refl))
