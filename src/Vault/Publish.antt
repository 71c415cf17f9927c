-- ===== src/Vault/Publish.antt =====
-- Writing the finished bytes of a vault: atomic.rs, and `write_temp`, `write_atomic`, `publish_new`
-- and the sweep of abandoned temp files in vault/store.rs.
pub mod Atomic
use secret_manager.Base.{
  ℕ, ◌+◌, ◌-◌, ◌/◌, ◌%◌, Bool, false, ◌&&◌, Option, none, some, [], ◌∷◌, ◌++◌, ltb, ◌==◌,
  if◌then◌else◌, Bytes, Text, bytes, Result, ok, err,
}
use secret_manager.Vault.Types.{IoError, CryptoError, VaultError}
use secret_manager.Vault.Os.{FilePath, Io, Os}

-- `format!("{b:02x}")`
abbrev pub hex_digit : ℕ → ℕ
hex_digit n = if ltb n 10 then b'0' + n else b'a' + (n - 10)

unfoldable pub hex : Bytes → Text
hex [] = []
hex (b ∷ rest) = hex_digit (b / 16) ∷ hex_digit (b % 16) ∷ hex rest

-- `<name>.<16 hex>.tmp` beside the target.
unfoldable pub temp_path : FilePath → Bytes → FilePath
temp_path path suffix = record path {
  name = path.name ++ (bytes "." ++ (hex suffix ++ bytes ".tmp"));
}

module _ {World : Type 0} (os : Os World) where
  abbrev pub Done : Type 0
  Done = Result VaultError (Unit {0}) × World

  -- The next call, if the one before it succeeded; else the error and what `undo` does about it.
  abbrev on_ok : Io World → (World → Io World) → Io World
  on_ok (ok _, w) f = f w
  on_ok (err e, w) f = (err e, w)

  write_then_rename : FilePath → FilePath → Bytes → World → Io World
  write_then_rename temp path content w = on_ok (os.create_new temp w) λ w1.
      on_ok (os.write_all temp content w1)
        λ w2. on_ok (os.sync_all temp w2) λ w3. os.rename temp path w3

  finish_atomic : FilePath → FilePath → Io World → Io World
  finish_atomic temp path (ok _, w) = (ok tt, os.sync_dir path.dir w)
  finish_atomic temp path (err e, w) = (err e, (os.remove_file temp w).1)

  -- `crate::atomic::write_atomic`; `ResourceBusy` where the RNG is unavailable.
  abbrev rng_unavailable : IoError
  rng_unavailable = IoError.other 16

  atomic_suffix : FilePath → Bytes → Option Bytes × World → Io World
  unfolding write_then_rename finish_atomic temp_path
  atomic_suffix path content (none, w) = (err rng_unavailable, w)
  atomic_suffix path content (some suffix, w) =
      let temp = temp_path path suffix in
      finish_atomic temp path (write_then_rename temp path content w)

  unfoldable pub atomic_write : FilePath → Bytes → World → Io World
  unfolding atomic_suffix
  atomic_write path content w = atomic_suffix path content (os.random 8 w)

  -- The chmod's failure is only logged.
  unfoldable pub ensure_vault_dir : Text → World → Io World
  ensure_vault_dir dir w = on_ok (os.create_dir dir w) λ w1. (ok tt, (os.set_dir_mode dir w1).1)

  abbrev to_vault : Io World → Done
  to_vault (ok _, w) = (ok tt, w)
  to_vault (err e, w) = (err (VaultError.io e), w)

  unfoldable pub write_atomic : FilePath → Bytes → World → Done
  unfolding atomic_write ensure_vault_dir
  write_atomic path content w =
      to_vault (on_ok (ensure_vault_dir path.dir w) (atomic_write path content))

  -- `write_temp`: a temp file that could not be filled is removed again.
  fill_temp : FilePath → Bytes → World → Io World
  fill_temp temp content w = on_ok (os.write_all temp content w) λ w1. os.sync_all temp w1

  drop_unfilled : FilePath → Io World → Result VaultError FilePath × World
  drop_unfilled temp (ok _, w) = (ok temp, w)
  drop_unfilled temp (err e, w) = (err (VaultError.io e), (os.remove_file temp w).1)

  create_temp : FilePath → Bytes → Io World → Result VaultError FilePath × World
  unfolding fill_temp drop_unfilled
  create_temp temp content (ok _, w) = drop_unfilled temp (fill_temp temp content w)
  create_temp temp content (err e, w) = (err (VaultError.io e), w)

  temp_suffix : FilePath → Bytes → Option Bytes × World → Result VaultError FilePath × World
  unfolding create_temp temp_path
  temp_suffix path content (none, w) = (err (VaultError.crypto CryptoError.rng), w)
  temp_suffix path content (some suffix, w) =
      let temp = temp_path path suffix in create_temp temp content (os.create_new temp w)

  temp_in_dir : FilePath → Bytes → Io World → Result VaultError FilePath × World
  unfolding temp_suffix
  temp_in_dir path content (ok _, w) = temp_suffix path content (os.random 8 w)
  temp_in_dir path content (err e, w) = (err (VaultError.io e), w)

  unfoldable pub write_temp : FilePath → Bytes → World → Result VaultError FilePath × World
  unfolding temp_in_dir ensure_vault_dir
  write_temp path content w = temp_in_dir path content (ensure_vault_dir path.dir w)

  unfoldable pub is_empty_file : FilePath → World → Bool
  is_empty_file path w =
      os.is_file path w && elim (os.file_len path w) [ ok n ↦ n == 0 | err e ↦ false ]

  -- The `finish` closure of `publish_new`.
  finish : FilePath → FilePath → Done → Done
  finish temp path (ok _, w) = (ok tt, os.sync_dir path.dir w)
  finish temp path (err e, w) = (err e, (os.remove_file temp w).1)

  exists_or_io : Io World → Done
  exists_or_io (ok _, w) = (ok tt, w)
  exists_or_io (err IoError.already_exists, w) = (err VaultError.already_exists, w)
  exists_or_io (err e, w) = (err (VaultError.io e), w)

  rename_over : FilePath → FilePath → Io World → Done
  rename_over temp path (ok _, w) = (ok tt, w)
  rename_over temp path (err e, w) = (err (VaultError.io e), (os.remove_file path w).1)

  -- The second `reserve()`, behind the reclaim of an empty file.
  reserve_again : FilePath → FilePath → Io World → Done
  unfolding rename_over
  reserve_again temp path (ok _, w) = rename_over temp path (os.rename temp path w)
  reserve_again temp path (err e, w) = (err VaultError.already_exists, w)

  reclaim_reservation : FilePath → FilePath → Io World → Done
  unfolding reserve_again
  reclaim_reservation temp path (ok _, w) = reserve_again temp path (os.create_new path w)
  reclaim_reservation temp path (err e, w) = (err VaultError.already_exists, w)

  reserved : FilePath → FilePath → Io World → Done
  unfolding reclaim_reservation is_empty_file rename_over
  reserved temp path (ok _, w) = rename_over temp path (os.rename temp path w)
  reserved temp path (err IoError.already_exists, w) =
      if is_empty_file path w
      then reclaim_reservation temp path (os.remove_file path w)
      else (err VaultError.already_exists, w)
  reserved temp path (err e, w) = (err (VaultError.io e), w)

  unfoldable pub publish_via_reservation : FilePath → FilePath → World → Done
  unfolding reserved
  publish_via_reservation temp path w = reserved temp path (os.create_new path w)

  retry_noreplace : FilePath → FilePath → Io World → Done
  unfolding exists_or_io
  retry_noreplace temp path (ok _, w) = exists_or_io (os.rename_noreplace temp path w)
  retry_noreplace temp path (err e, w) = (err VaultError.already_exists, w)

  renamed : FilePath → FilePath → Io World → Done
  unfolding retry_noreplace publish_via_reservation is_empty_file
  renamed temp path (ok _, w) = (ok tt, w)
  renamed temp path (err IoError.already_exists, w) =
      if is_empty_file path w
      then retry_noreplace temp path (os.remove_file path w)
      else (err VaultError.already_exists, w)
  renamed temp path (err IoError.enosys, w) = publish_via_reservation temp path w
  renamed temp path (err IoError.einval, w) = publish_via_reservation temp path w
  renamed temp path (err IoError.eopnotsupp, w) = publish_via_reservation temp path w
  renamed temp path (err IoError.eperm, w) = publish_via_reservation temp path w
  renamed temp path (err e, w) = (err (VaultError.io e), w)

  publish_temp : FilePath → Result VaultError FilePath × World → Done
  unfolding renamed finish
  publish_temp path (ok temp, w) =
      finish temp path (renamed temp path (os.rename_noreplace temp path w))
  publish_temp path (err e, w) = (err e, w)

  unfoldable pub publish_new : FilePath → Bytes → World → Done
  unfolding write_temp publish_temp
  publish_new path content w = publish_temp path (write_temp path content w)
