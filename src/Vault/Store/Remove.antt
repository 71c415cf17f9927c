-- ===== src/Vault/Store/Remove.antt =====
-- The ids that a collection lists while locked, and the deletion of its file (vault/store.rs).
use secret_manager.Base.{
  ◌≡◌, refl, ◌∙◌, ◌≢◌, Bool, false, Option, List, map, any, Bytes, Text, text_eq, Result, ok, err,
}
use secret_manager.Vault.Types.{IndexEntry, VaultError}
use secret_manager.Vault.Os.{FilePath, Io, Os, OsLaws}
use secret_manager.Vault.Sweep.{is_write_atomic_temp_name, sweep_stale_temp_files, stale_temp_age}
use secret_manager.Vault.Sweep.Spares.{sweep_temp_files_spares}
use secret_manager.Vault.Collection.{Vault}

unfoldable pub item_ids : Vault → List Text
item_ids v = map (λ (e : IndexEntry). e.id) v.header.index

unfoldable pub has_item : Vault → Text → Bool
has_item v id = any (λ (e : IndexEntry). text_eq e.id id) v.header.index

module _ {World : Type 0} (os : Os World) where
  -- Behind the removal: the sweep of the directory, if the file went.
  unfoldable pub file_removed : Text → Io World → Result VaultError (Unit {0}) × World
  file_removed dir (err e, w) = (err (VaultError.io e), w)
  file_removed dir (ok _, w) = (ok tt, (sweep_stale_temp_files os dir w).1)

  unfoldable pub delete_file : Vault → World → Result VaultError (Unit {0}) × World
  unfolding file_removed
  delete_file v w = file_removed v.path.dir (os.remove_file v.path w)

module _ {World : Type 0} (os : Os World) (file : World → FilePath → Option Bytes)
    (laws : OsLaws os file) (q : FilePath) (kept : is_write_atomic_temp_name q.name ≡ false) where
  removed_spares : (dir : Text) (r : Io World) → file (file_removed os dir r).1 q ≡ file r.1 q
  unfolding file_removed sweep_stale_temp_files
  removed_spares dir (err e, w) = refl
  removed_spares dir (ok _, w) = sweep_temp_files_spares os file laws q kept dir stale_temp_age w

  -- Deleting a collection leaves every other file that is not a temp file as it was, such as the
  -- files of the other collections.
  pub delete_file_spares :
      (v : Vault) (w : World) → q ≢ v.path → file (delete_file os v w).1 q ≡ file w q
  unfolding delete_file
  delete_file_spares v w other =
      removed_spares v.path.dir (os.remove_file v.path w) ∙ laws.remove_file_same v.path w q other
