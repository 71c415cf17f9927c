-- ===== src/Tests/StoreRuns.antt =====
-- The theorems on the operations of a collection, at the collection of the tests.
use secret_manager.Base.{
  ◌≤◌, ◌≡◌, refl, true, false, List, [], ◌∷◌, ◌++◌, arith, length, Bytes, bytes, ok, err,
}
use secret_manager.Vault.Types.{KdfParams, Item, ImportItem, VaultError, FormatError}
use secret_manager.Vault.Format.{max_vault_bytes}
use secret_manager.Vault.Os.{SameBut}
use mathlib.Core.Path.{subst}
use secret_manager.Vault.Collection.{Vault, locked, unlocked, Step, lock}
use secret_manager.Vault.Store.Life.{open_file}
use secret_manager.Vault.Store.{save, unlock_with_key}
use secret_manager.Vault.Store.Coherent.{IsCoherent, OpensTo, StateOpens}
use secret_manager.Vault.Store.Transaction.{IsTransaction}
use secret_manager.Vault.Store.Ops.{
  Op, insert, update, delete_all, unlock_with, close, run_op, run_ops, run_op-IsTransaction,
  run_ops-IsCoherent,
}
use secret_manager.Vault.Store.Unlock.{unlock-lock, state-save}
use secret_manager.Vault.Store.Durable.{OnDisk, save-OnDisk, save_failed, reopen-save}
use secret_manager.Vault.Store.Rotate.{change_key}
use secret_manager.Vault.Store.Rotate.Opens.{change_key_failed, change_key-IsRotated, IsRotated}
use secret_manager.Tests.Codec.{crates, crates_laws}
use secret_manager.Tests.Disk.{Machine, machine, machine_laws, file}
use secret_manager.Tests.Vaults.{
  start, mail, old_key, fresh, saving, saved, after, fresh_saved, saved-IsCoherent,
}

abbrev rename_mail : Item → Item
rename_mail i = record i { label = bytes "Post" }

abbrev web : ImportItem
web = record {
  label = bytes "Web";
  attributes = [];
  secret = bytes "x";
  content_type = bytes "text/plain";
  created = 1;
  modified = 2;
}

saved_state : saved.state ≡ unlocked old_key (mail ∷ [])
saved_state = state-save crates machine fresh start

saved_free : saved.retired ≡ false
unfolding saving
saved_free = refl

saved_limit : saved.size_limit ≤ max_vault_bytes
unfolding saving
saved_limit = omega arith

abbrev again : Step Machine (Unit {0})
again = save crates machine saved after

again_ok : again.0 ≡ ok tt
unfolding saving
again_ok = refl

abbrev again_content : Bytes
again_content = again.1.aad ++ again.1.ciphertext

again_read : machine.read saved.path again.2 ≡ ok again_content
unfolding saving
again_read = refl

again_len : machine.file_len saved.path again.2 ≡ ok (length again_content)
unfolding saving
again_len = refl

reopen-save_example :
    (u : Vault) × (open_file crates machine saved.path again.2 ≡ ok u)
    × (u.state ≡ locked)
    × ((unlock_with_key crates machine old_key u again.2).0 ≡ ok tt)
    × ((unlock_with_key crates machine old_key u again.2).1.state ≡ unlocked old_key (mail ∷ []))
reopen-save_example =
    reopen-save crates machine file crates_laws machine_laws saved old_key (mail ∷ []) after
      (length again_content) again_content saved-IsCoherent saved_state saved_limit again_ok
      again_len again_read

save-OnDisk_example : OnDisk crates machine file saved after × SameBut file fresh.path start after
save-OnDisk_example =
    save-OnDisk crates machine file crates_laws machine_laws fresh start fresh_saved

-- The same collection with a size limit that no file meets.
abbrev cramped : Vault
cramped = record saved { size_limit = 1 }

abbrev too_large : VaultError
too_large = VaultError.format (FormatError.vault_too_large (length again_content))

cramped_failed : (save crates machine cramped after).0 ≡ err too_large
unfolding saving
cramped_failed = refl

save_failed_example :
    ((save crates machine cramped after).1 ≡ cramped)
    × (file (save crates machine cramped after).2 cramped.path ≡ file after cramped.path)
save_failed_example =
    save_failed crates machine file crates_laws machine_laws cramped after too_large cramped_failed

unlock-lock_example :
    ((unlock_with_key crates machine old_key (lock saved) after).0 ≡ ok tt)
    × ((unlock_with_key crates machine old_key (lock saved) after).1.state
        ≡ unlocked old_key (mail ∷ []))
unlock-lock_example =
    unlock-lock crates machine saved old_key (mail ∷ []) after saved-IsCoherent saved_state
      saved_free

wrong_key_failed :
    (unlock_with_key crates machine (9 ∷ []) saved after).0 ≡ err VaultError.wrong_password
unfolding saving unlock_with_key
wrong_key_failed = refl

abbrev new_key : Bytes
new_key = 3 ∷ []

abbrev strong : KdfParams
strong = record { m_cost_kib = 64; t_cost = 2; p_cost = 1 }

abbrev new_salt : Bytes
new_salt = 8 ∷ []

wrong_change_failed :
    (change_key crates machine (9 ∷ []) new_salt strong new_key saved after).0
    ≡ err VaultError.wrong_password
unfolding saving change_key secret_manager.Vault.Kdf.validate
wrong_change_failed = refl

change_key_failed_example :
    (change_key crates machine (9 ∷ []) new_salt strong new_key saved after).1 ≡ saved
change_key_failed_example =
    change_key_failed crates machine (9 ∷ []) new_salt strong new_key saved old_key (mail ∷ [])
      after VaultError.wrong_password saved_state wrong_change_failed

saved_opens : OpensTo crates saved old_key (mail ∷ [])
saved_opens = subst (StateOpens crates saved) saved_state saved-IsCoherent.opens

change_ok : (change_key crates machine old_key new_salt strong new_key saved after).0 ≡ ok tt
unfolding saving change_key secret_manager.Vault.Kdf.validate
    secret_manager.Vault.Sweep.sweep_temp_files
change_ok = refl

change_key-IsRotated_example :
    IsRotated crates new_salt strong new_key
      (mail ∷ [])
      (change_key crates machine old_key new_salt strong new_key saved after).1
change_key-IsRotated_example =
    change_key-IsRotated crates machine old_key new_salt strong new_key saved (mail ∷ []) after
      crates_laws saved-IsCoherent saved_opens change_ok

-- Everything that the tests do, in one history.
abbrev history : List Op
history =
    insert (bytes "Web") mail.attributes (bytes "x") (bytes "text/plain") true
    ∷ update (bytes "a") (λ i. record i { label = bytes "Post" })
    ∷ delete_all (bytes "a" ∷ bytes "b" ∷ [])
    ∷ close
    ∷ unlock_with old_key
    ∷ []

run_op-IsTransaction_example :
    IsTransaction crates saved
      (run_op crates machine (delete_all (bytes "a" ∷ bytes "b" ∷ [])) saved after)
run_op-IsTransaction_example =
    run_op-IsTransaction crates machine crates_laws (delete_all (bytes "a" ∷ bytes "b" ∷ [])) saved
      after

run_ops-IsCoherent_example : IsCoherent crates (run_ops crates machine history saved after).0
run_ops-IsCoherent_example =
    run_ops-IsCoherent crates machine crates_laws history saved after saved-IsCoherent
