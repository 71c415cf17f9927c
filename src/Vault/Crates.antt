-- ===== src/Vault/Crates.antt =====
-- What the vault calls in other crates: argon2, chacha20poly1305, sha2 and postcard. Each is a
-- function on bytes that may fail; their documented behaviour is the laws below.
use secret_manager.Base.{Bytes, Option, some, List, ◌++◌, ◌≡◌}
use secret_manager.Vault.Types.{KdfParams, Header, Item}

pub record Crates : Type 0 where
  -- `Params::new` and `hash_password_into`: input, salt, parameters.
  pub argon2id : Bytes → Bytes → KdfParams → Option Bytes
  -- `XChaCha20Poly1305`: key, nonce, associated data, text.
  pub encrypt : Bytes → Bytes → Bytes → Bytes → Option Bytes
  pub decrypt : Bytes → Bytes → Bytes → Bytes → Option Bytes
  pub sha256 : Bytes → Bytes
  -- postcard's `to_allocvec` and `take_from_bytes`, at the two types that the vault stores.
  pub header_to_vec : Header → Option Bytes
  pub header_from_bytes : Bytes → Option (Header × Bytes)
  pub items_to_vec : List Item → Option Bytes
  pub items_from_bytes : Bytes → Option (List Item)

-- An authenticated ciphertext opens under what it was sealed with, and a postcard message is read
-- back whole, with what follows it.
pub record CratesLaws (c : Crates) : Type 0 where
  pub decrypt-encrypt :
      (key nonce aad text sealed : Bytes)
      → c.encrypt key nonce aad text ≡ some sealed
      → c.decrypt key nonce aad sealed ≡ some text
  pub header_from-to :
      (h : Header) (body rest : Bytes)
      → c.header_to_vec h ≡ some body
      → c.header_from_bytes (body ++ rest) ≡ some (h, rest)
  pub items_from-to :
      (items : List Item) (body : Bytes)
      → c.items_to_vec items ≡ some body
      → c.items_from_bytes body ≡ some items
