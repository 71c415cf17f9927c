-- ===== src/Tests/Vaults.antt =====
-- An unlocked collection on the test machine, and the theorems on collections at that input.
use secret_manager.Base.{◌≡◌, refl, true, false, none, [], ◌∷◌, Bytes, bytes, ok}
use secret_manager.Vault.Types.{KdfParams, Item}
use secret_manager.Vault.Os.{FilePath}
use secret_manager.Vault.Format.{
  header_bytes, encode_items, check_vault_size_against, max_vault_bytes, version, check_header,
}
use secret_manager.Vault.Publish.{write_atomic}
use secret_manager.Vault.Collection.{Vault, unlocked}
use secret_manager.Vault.Store.{save, save_with}
use secret_manager.Vault.Store.Saved.{save_with_ok}
use secret_manager.Vault.Store.Coherent.{IsCoherent, Written-IsCoherent}
use secret_manager.Tests.Codec.{crates, crates_laws, codec}
use secret_manager.Tests.Disk.{Machine, machine, on_machine}

abbrev pub home : FilePath
home = record { dir = bytes "vaults"; name = bytes "login.vault" }

abbrev pub fast : KdfParams
fast = record { m_cost_kib = 8; t_cost = 1; p_cost = 1 }

abbrev pub start : Machine
start = record { disk = λ p. none; clock = 7 }

abbrev pub mail : Item
mail = record {
  id = bytes "a";
  label = bytes "Mail";
  attributes = (bytes "user", bytes "ann") ∷ [];
  secret = bytes "s3cret";
  content_type = bytes "text/plain";
  created = 3;
  modified = 4;
}

abbrev pub old_key : Bytes
old_key = 1 ∷ 2 ∷ []

-- A collection that was never saved.
abbrev pub fresh : Vault
fresh = record {
  path = home;
  header = record {
    version = version;
    label = bytes "Login";
    created = 3;
    modified = 3;
    kdf = fast;
    salt = 5 ∷ [];
    index_salt = 6 ∷ [];
    nonce = [];
    index = [];
  };
  aad = [];
  ciphertext = [];
  state = unlocked old_key (mail ∷ []);
  index_attributes = true;
  index_warning = none;
  size_limit = max_vault_bytes;
  retired = false;
  pinned = false;
}

-- Named where a test runs a save.
unfoldable pub saving : Unit {0}
unfolding save codec on_machine secret_manager.Vault.Store.save_with
    secret_manager.Vault.Format.header_bytes secret_manager.Vault.Index.build_index
    secret_manager.Vault.Format.encode_items secret_manager.Vault.Kdf.seal
    secret_manager.Vault.Format.check_vault_size_against secret_manager.Vault.Index.to_le_bytes
    secret_manager.Vault.Publish.write_atomic secret_manager.Vault.Publish.hex
    secret_manager.Vault.Index.index_entry secret_manager.Vault.Index.sort
    secret_manager.Vault.Index.attribute_hash
saving = tt

abbrev pub saved : Vault
saved = (save crates machine fresh start).1

abbrev pub after : Machine
after = (save crates machine fresh start).2

pub fresh_saved : (save crates machine fresh start).0 ≡ ok tt
unfolding saving
fresh_saved = refl

fresh_accepted : check_header fresh.header ≡ ok tt
unfolding check_header secret_manager.Vault.Kdf.validate
fresh_accepted = refl

pub saved-IsCoherent : IsCoherent crates saved
unfolding save
saved-IsCoherent =
    Written-IsCoherent crates machine crates_laws (write_atomic machine) fresh _ _ fresh_accepted
      (save_with_ok crates machine (write_atomic machine) fresh start fresh_saved)
