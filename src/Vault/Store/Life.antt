-- ===== src/Vault/Store/Life.antt =====
-- How a collection comes into memory: `Vault::build`, `create` and `open` of vault/store.rs.
use secret_manager.Base.{
  ℕ, true, false, Option, none, some, [], replicate, Bytes, Text, Result, ok, err, map_err, ◌>>=◌,
  ◌>>◌,
}
use secret_manager.Vault.Types.{KdfParams, CryptoError, IoError, VaultError}
use secret_manager.Vault.Crates.{Crates}
use secret_manager.Vault.Kdf.{derive_key, salt_len, nonce_len}
use secret_manager.Vault.Format.{VaultFile, version, max_vault_bytes, check_vault_size, decode}
use secret_manager.Vault.Os.{FilePath, Os}
use secret_manager.Vault.Publish.{publish_new, ensure_vault_dir}
use secret_manager.Vault.Collection.{State, Vault, check_label, Step}
use secret_manager.Vault.Store.{save_with}

module _ {World : Type 0} (c : Crates) (os : Os World) where
  -- `Vault::build`: the salts, the key, then the clock.
  fresh_vault : FilePath → Text → KdfParams → Bytes → Bytes → Bytes → ℕ → Vault
  fresh_vault path label kdf salt index_salt key t = record {
    path = path;
    header = record {
      version = version;
      label = label;
      created = t;
      modified = t;
      kdf = kdf;
      salt = salt;
      index_salt = index_salt;
      nonce = replicate nonce_len 0;
      index = [];
    };
    aad = [];
    ciphertext = [];
    state = State.unlocked key [];
    index_attributes = true;
    index_warning = none;
    size_limit = max_vault_bytes;
    retired = false;
    pinned = false;
  }

  build_key :
      FilePath
      → Text
      → KdfParams
      → Bytes
      → Bytes
      → World
      → Result CryptoError Bytes
      → Result VaultError Vault × World
  unfolding fresh_vault
  build_key path label kdf salt index_salt w (err e) = (err (VaultError.crypto e), w)
  build_key path label kdf salt index_salt w (ok key) =
      let (t, w1) = os.now w in (ok (fresh_vault path label kdf salt index_salt key t), w1)

  build_index_salt :
      FilePath
      → Text
      → Bytes
      → KdfParams
      → Bytes
      → Option Bytes × World
      → Result VaultError Vault × World
  unfolding build_key
  build_index_salt path label password kdf salt (none, w) =
      (err (VaultError.crypto CryptoError.rng), w)
  build_index_salt path label password kdf salt (some index_salt, w) =
      build_key path label kdf salt index_salt w (derive_key c password salt kdf)

  build_salt :
      FilePath → Text → Bytes → KdfParams → Option Bytes × World → Result VaultError Vault × World
  unfolding build_index_salt
  build_salt path label password kdf (none, w) = (err (VaultError.crypto CryptoError.rng), w)
  build_salt path label password kdf (some salt, w) =
      build_index_salt path label password kdf salt (os.random salt_len w)

  unfoldable pub build :
      FilePath → Text → Bytes → KdfParams → World → Result VaultError Vault × World
  unfolding build_salt check_label
  build path label password kdf w = elim (check_label label) [
    | err e ↦ (err e, w)
    | ok _ ↦ build_salt path label password kdf (os.random salt_len w)
  ]

  -- `Vault::create`: the vault comes back only if its file was published.
  created : Step World (Unit {0}) → Result VaultError Vault × World
  created (ok _, v, w) = (ok v, w)
  created (err e, v, w) = (err e, w)

  create_built : Result VaultError Vault × World → Result VaultError Vault × World
  unfolding created
  create_built (err e, w) = (err e, w)
  create_built (ok v, w) = created (save_with c os (publish_new os) v w)

  create_in :
      FilePath
      → Text
      → Bytes
      → KdfParams
      → Result IoError (Unit {0}) × World
      → Result VaultError Vault × World
  unfolding create_built
  create_in path label password kdf (err e, w) = (err (VaultError.io e), w)
  create_in path label password kdf (ok _, w) = create_built (build path label password kdf w)

  unfoldable pub create :
      FilePath → Text → Bytes → KdfParams → World → Result VaultError Vault × World
  unfolding create_in
  create path label password kdf w =
      create_in path label password kdf (ensure_vault_dir os path.dir w)

  abbrev pub locked_vault : FilePath → VaultFile → Vault
  locked_vault path f = record {
    path = path;
    header = f.header;
    aad = f.aad;
    ciphertext = f.ciphertext;
    state = State.locked;
    index_attributes = true;
    index_warning = none;
    size_limit = max_vault_bytes;
    retired = false;
    pinned = false;
  }

  unfoldable pub open_file : FilePath → World → Result VaultError Vault
  open_file path w = do
    len ← map_err VaultError.io (os.file_len path w)
    map_err VaultError.format (check_vault_size len)
    content ← map_err VaultError.io (os.read path w)
    f ← map_err VaultError.format (decode c content)
    ok (locked_vault path f)
