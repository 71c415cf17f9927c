-- ===== src/Vault/Kdf/Bounds.antt =====
-- Which parameter sets reach Argon2 (vault/crypto.rs).
use secret_manager.Base.{◌*◌, ◌≤◌, ◌≡◌, ◌↔◌, some, ◌++◌, arith, Bytes, ok}
use secret_manager.Vault.Types.{KdfParams}
use secret_manager.Vault.Crates.{Crates}
use secret_manager.Vault.Kdf.{
  max_m_cost_kib, max_t_cost, max_p_cost, validate, derive_key, default_params, kdf_context,
}

-- The ranges that the ceilings and Argon2's own minimum leave.
pub record IsSafe (p : KdfParams) : Type 0 where
  pub p_low : 1 ≤ p.p_cost
  pub p_high : p.p_cost ≤ max_p_cost
  pub t_low : 1 ≤ p.t_cost
  pub t_high : p.t_cost ≤ max_t_cost
  pub m_low : 8 * p.p_cost ≤ p.m_cost_kib
  pub m_high : p.m_cost_kib ≤ max_m_cost_kib

-- `validate` accepts exactly the safe parameter sets; its `u32` product never wraps where it matters.
pub validate-ok_iff : (p : KdfParams) → (validate p ≡ ok tt) ↔ IsSafe p
unfolding validate
validate-ok_iff p = ground arith

-- Argon2 runs only on safe parameters: on any other the derivation is refused whatever Argon2 does.
pub derive_key-IsSafe :
    (c : Crates) (password salt : Bytes) (p : KdfParams) (key : Bytes)
    → derive_key c password salt p ≡ ok key
    → IsSafe p × (c.argon2id (kdf_context ++ password) salt p ≡ some key)
unfolding derive_key validate
derive_key-IsSafe c password salt p key h = ground arith

pub default_params-IsSafe : IsSafe default_params
default_params-IsSafe = omega arith
