-- ===== src/Session.antt =====
-- Transport encryption for secrets that cross the bus: src/session/mod.rs and src/session/dh.rs.
pub mod Agree
use secret_manager.Base.{
  ℕ, zero, suc, ◌+◌, ◌-◌, ◌*◌, ◌/◌, ◌%◌, ◌^◌, ◌≤◌, ◌<◌, min, String, ◌≡◌, refl, sym, ap, ◌∙◌,
  fun_ext, ◌≢◌, ◌↔◌, ◌⊎◌, inl, inr, Bool, true, false, not, ◌&&◌, ◌||◌, Option, none, some, List,
  [], ◌∷◌, ◌++◌, map, append_assoc, append-nil, arith, ltb, leb, ◌==◌, if◌then◌else◌, ltb→lt,
  not-ltb→le, le→not-ltb, lt→ltb, ==_iff, tests, Bool-cases, Option-cases, length, is_empty,
  get_elem?, set, take, drop, all, any, All, length-append, append_inj, replicate, take-append,
  drop-append, take-take, drop-take, take-append-length, drop-append-length, take-append-drop,
  length-take, length-drop, length-set, Bytes, Text, bytes, text_eq, text_eq_iff, text_eq_refl,
  Result, ok, err, ◌>>=◌, ◌>>◌, ok_or, map_err, or_else, Result-cases,
}
use secret_manager.Base.BigEndian.{to_be, from_be, strip_zeros}

-- What the crates `cbc`/`aes`, `crypto-bigint` and `hkdf` compute: AES-128-CBC with PKCS#7 padding
-- (`none` for an input that does not decrypt), exponentiation modulo the group's prime, and HKDF-SHA256
-- without salt and info (`none` for a length out of its range).
pub record Crates : Type 0 where
  pub cbc_encrypt : Bytes → Bytes → Bytes → Bytes
  pub cbc_decrypt : Bytes → Bytes → Bytes → Option Bytes
  pub pow_mod : ℕ → ℕ → ℕ
  pub hkdf_sha256 : Bytes → ℕ → Option Bytes

pub data DhError : Type 0 where
  invalid_peer_key hkdf : DhError

pub data SessionError : Type 0 where
  bad_iv : ℕ → SessionError
  decrypt_failed : SessionError
  dh : DhError → SessionError

-- A key pair; `public` has no leading zeros.
pub record KeyPair : Type 0 where
  pub private : ℕ
  pub public : Bytes

pub data SessionCipher : Type 0 where
  plain : SessionCipher
  aes : Bytes → SessionCipher

abbrev pub prime_bytes : ℕ
prime_bytes = 128

-- RFC 2409, second Oakley group.
abbrev pub prime : ℕ
prime =
    0xFFFFFFFFFFFFFFFFC90FDAA22168C234C4C6628B80DC1CD129024E088A67CC74020BBEA63B139B22514A08798E3404DDEF9519B3CD3A431B302B0A6DF25F14374FE1356D6D51C245E485B576625E7EC6F44C42E9A637ED6B0BFF5CB6F406B7EDEE386BFB5A899FA5AE9F24117C4B1FE649286651ECE65381FFFFFFFFFFFFFFFF

abbrev pub algorithm_plain : Text
algorithm_plain = bytes "plain"

abbrev pub algorithm_dh : Text
algorithm_dh = bytes "dh-ietf1024-sha256-aes128-cbc-pkcs7"

abbrev pub algorithm : SessionCipher → Text
algorithm plain = algorithm_plain
algorithm (aes key) = algorithm_dh

unfoldable pub minimal_be : ℕ → Bytes
unfolding strip_zeros to_be
minimal_be x = strip_zeros (to_be prime_bytes x)

unfoldable pub from_be_padded : Bytes → Option ℕ
unfolding from_be
from_be_padded b = if ltb prime_bytes (length b) then none else some (from_be 0 b)

module _ (crates : Crates) where
  -- The key pair of 128 random bytes: a private exponent from 2 to p - 2.
  unfoldable pub generate : Bytes → KeyPair
  unfolding minimal_be from_be
  generate raw =
      let private = (from_be 0 raw % (prime - 3) + 2) % 2 ^ 1024 in
      record { private = private; public = minimal_be (crates.pow_mod 2 private) }

  abbrev hkdf_key : Option Bytes → Result DhError Bytes
  hkdf_key none = err hkdf
  hkdf_key (some okm) = ok okm

  peer_key : KeyPair → Option ℕ → Result DhError Bytes
  unfolding to_be
  peer_key pair none = err invalid_peer_key
  peer_key pair (some peer) =
      if leb peer 1 || leb (prime - 1) peer
      then err invalid_peer_key
      else hkdf_key (crates.hkdf_sha256 (to_be prime_bytes (crates.pow_mod peer pair.private)) 16)

  unfoldable pub derive_aes_key : KeyPair → Bytes → Result DhError Bytes
  unfolding peer_key from_be_padded
  derive_aes_key pair peer_public = peer_key pair (from_be_padded peer_public)

  unfoldable pub from_dh : KeyPair → Bytes → Result SessionError SessionCipher
  unfolding derive_aes_key
  from_dh pair peer_public = elim (derive_aes_key pair peer_public) [
    | err e ↦ err (dh e)
    | ok key ↦ ok (aes key)
  ]

  -- The parameters and the value; `iv` are the 16 random bytes.
  unfoldable pub encrypt : SessionCipher → Bytes → Bytes → Bytes × Bytes
  encrypt plain iv plaintext = ([], plaintext)
  encrypt (aes key) iv plaintext = (iv, crates.cbc_encrypt key iv plaintext)

  unfoldable pub decrypt : SessionCipher → Bytes → Bytes → Result SessionError Bytes
  decrypt plain parameters value = ok value
  decrypt (aes key) parameters value =
      if length parameters == 16
      then ok_or (crates.cbc_decrypt key parameters value) decrypt_failed
      else err (bad_iv (length parameters))
