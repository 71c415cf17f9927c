-- ===== src/Vault/Store/Rotate.antt =====
-- Changing the key of a collection, `change_key` and `change_password` of vault/store.rs.
pub mod Keeps
pub mod Opens
use secret_manager.Base.{Option, none, some, if◌then◌else◌, Bytes, text_eq, Result, ok, err}
use secret_manager.Vault.Types.{KdfParams, CryptoError, VaultError}
use secret_manager.Vault.Crates.{Crates}
use secret_manager.Vault.Kdf.{validate, derive_key, salt_len}
use secret_manager.Vault.Os.{Os}
use secret_manager.Vault.Sweep.{sweep_temp_files}
use secret_manager.Vault.Collection.{State, locked, unlocked, Vault, Step, lock, verify_state}
use secret_manager.Vault.Store.{save, unlock_with_key}

-- `if let State::Unlocked { key: k, .. } = &mut self.state { *k = key.clone() }`
unfoldable pub set_key : Bytes → State → State
set_key key locked = locked
set_key key (unlocked old list) = unlocked key list

unfoldable pub rekeyed : Vault → Bytes → Bytes → KdfParams → Bytes → Vault
unfolding set_key
rekeyed v salt index_salt kdf key = record v {
  header = record v.header { salt = salt; kdf = kdf; index_salt = index_salt };
  state = set_key key v.state;
}

module _ {World : Type 0} (c : Crates) (os : Os World) where
  abbrev pub sweep_dir_now : Vault → World → World
  sweep_dir_now v w = (sweep_temp_files os v.path.dir 0 w).1

  -- Behind the save of the rotated vault: what went before is put back if it failed.
  unfoldable pub finish_rotation : Vault → Bytes → Step World (Unit {0}) → Step World (Unit {0})
  unfolding rekeyed
  finish_rotation before old_key (ok _, v, w) = (ok tt, v, sweep_dir_now v w)
  finish_rotation before old_key (err e, v, w) =
      (err e, rekeyed v before.header.salt before.header.index_salt before.header.kdf old_key, w)

  unfoldable pub rotate :
      Bytes → Bytes → Bytes → KdfParams → Bytes → Vault → World → Step World (Unit {0})
  unfolding finish_rotation
  rotate old_key new_salt new_index_salt new_kdf new_key v w =
      finish_rotation v old_key (save c os (rekeyed v new_salt new_index_salt new_kdf new_key) w)

  abbrev relock : Step World (Unit {0}) → Step World (Unit {0})
  relock (r, v, w) = (r, lock v, w)

  -- A vault that was locked is unlocked for the rotation and locked again after it.
  unfoldable pub rotate_unlocked :
      Bytes → Bytes → Bytes → KdfParams → Bytes → Step World (Unit {0}) → Step World (Unit {0})
  unfolding rotate lock
  rotate_unlocked old_key new_salt new_index_salt new_kdf new_key (err e, v, w) = (err e, v, w)
  rotate_unlocked old_key new_salt new_index_salt new_kdf new_key (ok _, v, w) =
      relock (rotate old_key new_salt new_index_salt new_kdf new_key v w)

  unfoldable pub rotate_from :
      Bytes → Bytes → Bytes → KdfParams → Bytes → Vault → State → World → Step World (Unit {0})
  unfolding rotate_unlocked verify_state
  rotate_from old_key new_salt new_index_salt new_kdf new_key v locked w =
      rotate_unlocked old_key new_salt new_index_salt new_kdf new_key
        (unlock_with_key c os old_key v w)
  rotate_from old_key new_salt new_index_salt new_kdf new_key v (unlocked key list) w =
      if verify_state c v old_key (unlocked key list)
      then rotate old_key new_salt new_index_salt new_kdf new_key v w
      else (err VaultError.wrong_password, v, w)

  unfoldable pub rotate_salted :
      Bytes → Bytes → KdfParams → Bytes → Vault → Option Bytes × World → Step World (Unit {0})
  unfolding rotate_from
  rotate_salted old_key new_salt new_kdf new_key v (none, w) =
      (err (VaultError.crypto CryptoError.rng), v, w)
  rotate_salted old_key new_salt new_kdf new_key v (some new_index_salt, w) =
      rotate_from old_key new_salt new_index_salt new_kdf new_key v v.state (sweep_dir_now v w)

  unfoldable pub change_key :
      Bytes → Bytes → KdfParams → Bytes → Vault → World → Step World (Unit {0})
  unfolding rotate_salted
  change_key old_key new_salt new_kdf new_key v w = elim (validate new_kdf) [
    | err e ↦ (err (VaultError.crypto e), v, w)
    | ok _ ↦
        if text_eq new_salt v.header.salt
        then (err VaultError.salt_reused, v, w)
        else rotate_salted old_key new_salt new_kdf new_key v (os.random salt_len w)
  ]

  unfoldable pub change_to :
      Bytes → Bytes → KdfParams → Vault → World → Result CryptoError Bytes → Step World (Unit {0})
  change_to old_key new_salt kdf v w (err e) = (err (VaultError.crypto e), v, w)
  change_to old_key new_salt kdf v w (ok new_key) = change_key old_key new_salt kdf new_key v w

  unfoldable pub change_salted :
      Bytes → Bytes → KdfParams → Vault → Option Bytes × World → Step World (Unit {0})
  unfolding change_to
  change_salted old_key new kdf v (none, w) = (err (VaultError.crypto CryptoError.rng), v, w)
  change_salted old_key new kdf v (some new_salt, w) =
      change_to old_key new_salt kdf v w (derive_key c new new_salt kdf)

  unfoldable pub change_derived :
      Bytes → KdfParams → Vault → World → Result CryptoError Bytes → Step World (Unit {0})
  unfolding change_salted
  change_derived new kdf v w (err e) = (err (VaultError.crypto e), v, w)
  change_derived new kdf v w (ok old_key) = change_salted old_key new kdf v (os.random salt_len w)

  unfoldable pub change_password : Bytes → Bytes → KdfParams → Vault → World → Step World (Unit {0})
  unfolding change_derived
  change_password old new kdf v w =
      change_derived new kdf v w (derive_key c old v.header.salt v.header.kdf)
