-- ===== src/Vault/Kdf.antt =====
-- Key derivation and authenticated encryption, vault/crypto.rs. A `Key` is its 32 bytes.
pub mod Bounds
use secret_manager.Base.{
  ℕ, ◌+◌, ◌*◌, ◌%◌, ◌^◌, ◌||◌, Option, none, some, [], ◌∷◌, ◌++◌, ltb, ◌==◌, if◌then◌else◌, Bytes,
  bytes, Result, ok, err, ok_or, ◌>>=◌, ◌>>◌,
}
use secret_manager.Vault.Types.{KdfParams, UnsafeReason, CryptoError}
use secret_manager.Vault.Crates.{Crates}

abbrev pub key_len : ℕ
key_len = 32

abbrev pub salt_len : ℕ
salt_len = 16

abbrev pub nonce_len : ℕ
nonce_len = 24

abbrev pub kdf_context : Bytes
kdf_context = bytes "secret-manager vault key v1" ++ 0 ∷ []

abbrev pub max_m_cost_kib : ℕ
max_m_cost_kib = 256 * 1024

abbrev pub max_t_cost : ℕ
max_t_cost = 64

abbrev pub max_p_cost : ℕ
max_p_cost = 16

-- `8 * self.p_cost` is a product of `u32`s.
unfoldable pub unsafe_reason : KdfParams → Option UnsafeReason
unsafe_reason p =
    if p.p_cost == 0 || ltb max_p_cost p.p_cost
    then some (UnsafeReason.p_cost_outside p.p_cost)
    else if p.t_cost == 0 || ltb max_t_cost p.t_cost
    then some (UnsafeReason.t_cost_outside p.t_cost)
    else if ltb max_m_cost_kib p.m_cost_kib
    then some (UnsafeReason.m_cost_exceeds p.m_cost_kib)
    else if ltb p.m_cost_kib (8 * p.p_cost % 2 ^ 32)
    then some (UnsafeReason.m_cost_below_minimum p.m_cost_kib (8 * p.p_cost % 2 ^ 32))
    else none

abbrev refuse : Option UnsafeReason → Result CryptoError (Unit {0})
refuse (some r) = err (CryptoError.unsafe_kdf r)
refuse none = ok tt

unfoldable pub validate : KdfParams → Result CryptoError (Unit {0})
unfolding unsafe_reason
validate p = refuse (unsafe_reason p)

abbrev pub default_params : KdfParams
default_params = record { m_cost_kib = 65536; t_cost = 3; p_cost = 1 }

unfoldable pub derive_key : Crates → Bytes → Bytes → KdfParams → Result CryptoError Bytes
derive_key c password salt params = do
  validate params
  ok_or (c.argon2id (kdf_context ++ password) salt params) CryptoError.kdf

unfoldable pub seal : Crates → Bytes → Bytes → Bytes → Bytes → Result CryptoError Bytes
seal c key nonce aad plaintext = ok_or (c.encrypt key nonce aad plaintext) CryptoError.auth

unfoldable pub open_sealed : Crates → Bytes → Bytes → Bytes → Bytes → Result CryptoError Bytes
open_sealed c key nonce aad ciphertext = ok_or (c.decrypt key nonce aad ciphertext) CryptoError.auth
