-- ===== src/Vault.antt =====
-- The encrypted collection on disk (src/vault).
pub mod Types
pub mod Crates
pub mod Caps
pub mod Kdf
pub mod Index
pub mod Format
pub mod Os
pub mod CollectionId
pub mod Publish
pub mod Sweep
pub mod Collection
pub mod Store
