-- ===== src/Vault/Store.antt =====
-- The life of a collection on disk, `Vault` of vault/store.rs: saving and unlocking. Building,
-- creating and opening stand in Store/Life, the changes of items in Store/Items and Store/Batch, the
-- change of the key in Store/Rotate.
pub mod Life
pub mod Delta
pub mod Items
pub mod Batch
pub mod Saved
pub mod Coherent
pub mod Transaction
pub mod Ops
pub mod Unlock
pub mod Durable
pub mod Rotate
pub mod Remove
pub mod Effects
use secret_manager.Base.{
  ℕ, ◌+◌, Bool, true, false, not, ◌&&◌, Option, none, some, List, [], ◌++◌, if◌then◌else◌, length,
  is_empty, any, replicate, Bytes, Text, text_eq, Result, ok, err, map_err, ◌>>=◌, ◌>>◌,
}
use secret_manager.Vault.Types.{
  KdfParams, Header, Item, CryptoError, FormatError, IoError, VaultError,
}
use secret_manager.Vault.Crates.{Crates}
use secret_manager.Vault.Kdf.{derive_key, seal, open_sealed, salt_len, nonce_len}
use secret_manager.Vault.Index.{build_index}
use secret_manager.Vault.Format.{
  VaultFile, version, max_vault_bytes, check_vault_size, check_vault_size_against, header_bytes,
  encode_items, decode_items, decode,
}
use secret_manager.Vault.Os.{FilePath, Os}
use secret_manager.Vault.Publish.{write_atomic, publish_new, ensure_vault_dir}
use secret_manager.Vault.Collection.{State, Vault, check_label, Step, index_has_attributes}

module _ {World : Type 0} (c : Crates) (os : Os World) where
  -- Header, plaintext and ciphertext of a save, up to the size check: all that can fail before
  -- the bytes are published.
  unfoldable pub seal_file : Vault → Bytes → List Item → Result VaultError (Bytes × Bytes)
  seal_file v key list = do
    aad ← map_err VaultError.format (header_bytes c v.header)
    plain ← map_err VaultError.format (encode_items c list)
    ciphertext ← map_err VaultError.crypto (seal c key v.header.nonce aad plain)
    map_err VaultError.format (check_vault_size_against (length (aad ++ ciphertext)) v.size_limit)
    ok (aad, ciphertext)

  -- The last arm of `save_with`: the header is put back if the bytes could not be published.
  unfoldable pub save_published :
      Vault → Header → Bytes → Bytes → Result VaultError (Unit {0}) × World → Step World (Unit {0})
  save_published v saved aad ciphertext (ok _, w) =
      (ok tt, record v { aad = aad; ciphertext = ciphertext }, w)
  save_published v saved aad ciphertext (err e, w) = (err e, record v { header = saved }, w)

  unfoldable pub save_sealed :
      (FilePath → Bytes → World → Result VaultError (Unit {0}) × World)
      → Vault
      → Header
      → World
      → Result VaultError (Bytes × Bytes)
      → Step World (Unit {0})
  unfolding save_published
  save_sealed publish v saved w (err e) = (err e, record v { header = saved }, w)
  save_sealed publish v saved w (ok (aad, ciphertext)) =
      save_published v saved aad ciphertext (publish v.path (aad ++ ciphertext) w)

  -- The header that a save writes.
  unfoldable pub next_header : Vault → List Item → Bytes → ℕ → Header
  next_header v list nonce t = record v.header {
    modified = t;
    nonce = nonce;
    index = build_index c v.header.index_salt list v.index_attributes;
  }

  unfoldable pub save_nonce :
      (FilePath → Bytes → World → Result VaultError (Unit {0}) × World)
      → Vault
      → Bytes
      → List Item
      → Option Bytes × World
      → Step World (Unit {0})
  unfolding save_sealed next_header seal_file
  save_nonce publish v key list (none, w) = (err (VaultError.crypto CryptoError.rng), v, w)
  save_nonce publish v key list (some nonce, w) =
      let (t, w1) = os.now w in
      let v1 = record v { header = next_header v list nonce t } in
      save_sealed publish v1 v.header w1 (seal_file v1 key list)

  unfoldable pub save_state :
      (FilePath → Bytes → World → Result VaultError (Unit {0}) × World)
      → Vault
      → State
      → World
      → Step World (Unit {0})
  unfolding save_nonce
  save_state publish v State.locked w = (err VaultError.locked, v, w)
  save_state publish v (State.unlocked key list) w =
      save_nonce publish v key list (os.random nonce_len w)

  unfoldable pub save_with :
      (FilePath → Bytes → World → Result VaultError (Unit {0}) × World)
      → Vault
      → World
      → Step World (Unit {0})
  unfolding save_state
  save_with publish v w =
      if v.retired then (err VaultError.retired, v, w) else save_state publish v v.state w

  unfoldable pub save : Vault → World → Step World (Unit {0})
  save v w = save_with (write_atomic os) v w

  -- `unlock_with_key` behind its decryption: the index is rewritten if it does not fit the policy.
  unfoldable pub wants_attributes : Vault → List Item → Bool
  wants_attributes v list =
      v.index_attributes && any (λ (i : Item). not (is_empty i.attributes)) list

  unfoldable pub note_rewrite : Step World (Unit {0}) → Step World (Unit {0})
  note_rewrite (ok _, v, w) = (ok tt, record v { index_warning = none }, w)
  note_rewrite (err e, v, w) = (ok tt, record v { index_warning = some e }, w)

  abbrev pub same_bool : Bool → Bool → Bool
  same_bool true b = b
  same_bool false b = not b

  unfoldable pub refresh_index : Vault → List Item → World → Step World (Unit {0})
  unfolding note_rewrite wants_attributes
  refresh_index v list w =
      if not (same_bool (index_has_attributes v) (wants_attributes v list))
      then note_rewrite (save v w)
      else (ok tt, record v { index_warning = none }, w)

  unfoldable pub unlock_items :
      Vault → Bytes → World → Result FormatError (List Item) → Step World (Unit {0})
  unfolding refresh_index
  unlock_items v key w (err e) = (err (VaultError.format e), v, w)
  unlock_items v key w (ok list) =
      refresh_index (record v { state = State.unlocked key list }) list w

  unfoldable pub unlock_plain :
      Vault → Bytes → World → Result CryptoError Bytes → Step World (Unit {0})
  unfolding unlock_items
  unlock_plain v key w (err e) = (err VaultError.wrong_password, v, w)
  unlock_plain v key w (ok plain) = unlock_items v key w (decode_items c plain)

  unfoldable pub unlock_state : Vault → Bytes → World → State → Step World (Unit {0})
  unfolding unlock_plain
  unlock_state v key w (State.unlocked current list) =
      if text_eq current key then (ok tt, v, w) else (err VaultError.wrong_password, v, w)
  unlock_state v key w State.locked =
      unlock_plain v key w (open_sealed c key v.header.nonce v.aad v.ciphertext)

  unfoldable pub unlock_with_key : Bytes → Vault → World → Step World (Unit {0})
  unfolding unlock_state
  unlock_with_key key v w =
      if v.retired then (err VaultError.retired, v, w) else unlock_state v key w v.state

  unlock_derived : Vault → World → Result CryptoError Bytes → Step World (Unit {0})
  unlock_derived v w (err e) = (err (VaultError.crypto e), v, w)
  unlock_derived v w (ok key) = unlock_with_key key v w

  unfoldable pub unlock : Bytes → Vault → World → Step World (Unit {0})
  unfolding unlock_derived
  unlock password v w = unlock_derived v w (derive_key c password v.header.salt v.header.kdf)
